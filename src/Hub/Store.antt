-- ===== src/Hub/Store.antt =====
-- The rows that apps/inbox_hub reads and writes: HubEmail, InboundEmail, AgentAvailability,
-- HubEmailAssignment, TenantMembership and ActivityLog, with the live broadcasts and the calls
-- that wait for the commit. Keys are numbers, times are microseconds.
pub mod Rows
use kanzan.Prelude.{
  ℕ, ◌-◌, Bool, true, false, ◌&&◌, not, Option, none, some, List, [], ◌∷◌, ◌==◌, leb, if◌then◌else◌,
  String, any,
}
use kanzan.Hub.State.{State}

pub data Priority : Type 0 where
  low normal high urgent : Priority

-- A row of `HubEmail`, with the fields that the services use.
pub record HubEmail : Type 0 where
  pub pk : ℕ
  pub tenant : ℕ
  pub inbound : Option ℕ
  pub contact : Option ℕ
  pub department : Option ℕ
  pub queue : Option ℕ
  pub assignee : Option ℕ
  pub state : State
  pub priority : Priority
  pub category : String
  pub sla_response_due_at : Option ℕ
  pub sla_resolution_due_at : Option ℕ
  pub first_responded_at : Option ℕ
  pub first_assigned_at : Option ℕ
  pub escalation_count : ℕ
  pub escalated_to : Option ℕ
  pub converted_ticket : Option ℕ
  pub dismissed_at : Option ℕ
  pub dismissed_by : Option ℕ
  pub dismissal_reason : String

pub data InboxStatus : Type 0 where
  pending other : InboxStatus

pub data InboundStatus : Type 0 where
  parked_in_hub ticket_created unparked : InboundStatus

-- A row of `InboundEmail`.
pub record Inbound : Type 0 where
  pub pk : ℕ
  pub assignee : Option ℕ
  pub inbox_status : InboxStatus
  pub is_read : Bool
  pub status : InboundStatus
  pub ticket : Option ℕ

-- A row of `AgentAvailability`; `on_duty` is what `_within_working_hours` says at the time of the
-- call.
pub record Availability : Type 0 where
  pub tenant : ℕ
  pub user : ℕ
  pub online : Bool
  pub max_concurrent_tickets : ℕ
  pub current_ticket_count : ℕ
  pub last_activity : Option ℕ
  pub last_seen : Option ℕ
  pub auto_away_outside_hours : Bool
  pub on_duty : Bool

pub data Reason : Type 0 where
  auto manual reassignment : Reason

-- A row of `HubEmailAssignment`.
pub record Assignment : Type 0 where
  pub tenant : ℕ
  pub hub_email : ℕ
  pub assigned_to : ℕ
  pub assigned_by : Option ℕ
  pub reason : Reason
  pub created_at : ℕ

pub data Action : Type 0 where
  email_received email_converted_to_ticket email_dismissed status_changed : Action
  email_escalated email_reassigned email_agent_assigned email_categorised email_queued : Action

-- A row of `ActivityLog` about a hub email; the text of its description is left out.
pub record LogRow : Type 0 where
  pub hub_email : ℕ
  pub actor : Option ℕ
  pub action : Action

pub data LiveEvent : Type 0 where
  created converted dismissed transitioned escalated reassigned assigned : LiveEvent

-- `_hub_email_payload` with the name of its event
pub record Broadcast : Type 0 where
  pub event : LiveEvent
  pub hub_email : ℕ
  pub state : State
  pub priority : Priority
  pub queue : Option ℕ
  pub assignee : Option ℕ

-- What `transaction.on_commit` was given.
pub data OnCommit : Type 0 where
  notify_assignment notify_escalation notify_reassignment : ℕ → ℕ → OnCommit
  post_park_hooks : ℕ → OnCommit

pub record Db : Type 0 where
  pub emails : List HubEmail
  pub inbounds : List Inbound
  pub availability : List Availability
  pub assignments : List Assignment
  -- the active memberships: tenant and user
  pub members : List (ℕ × ℕ)
  -- the departments with their leads
  pub leads : List (ℕ × ℕ)
  -- the tickets that were created from emails, the latest first
  pub tickets : List ℕ
  pub log : List LogRow
  pub live : List Broadcast
  pub on_commit : List OnCommit

pub data Error : Type 0 where
  does_not_exist illegal_transition not_a_member terminal_state no_status : Error

-- A service ends with a result, or raises; a raise rolls the transaction back.
pub data Result (A : Type 0) : Type 0 where
  ok : A → Result A
  raised : Error → Result A

-- `qs.get(pk=pk)`
unfoldable pub find : ℕ → List HubEmail → Option HubEmail
find pk [] = none
find pk (e ∷ es) = if e.pk == pk then some e else find pk es

-- `save(update_fields=…)`: the given fields of the row are written.
pub save : ℕ → (HubEmail → HubEmail) → List HubEmail → List HubEmail
save pk write [] = []
save pk write (e ∷ es) = (if e.pk == pk then write e else e) ∷ save pk write es

pub save_inbound : Option ℕ → (Inbound → Inbound) → List Inbound → List Inbound
save_inbound none write is = is
save_inbound (some pk) write [] = []
save_inbound (some pk) write (i ∷ is) =
    (if i.pk == pk then write i else i) ∷ save_inbound (some pk) write is

abbrev pub is_row_of : ℕ → ℕ → Availability → Bool
is_row_of tenant user a = a.tenant == tenant && a.user == user

-- `AgentAvailability.unscoped.filter(…).update(…)`
unfoldable pub update_where :
    (Availability → Bool) → (Availability → Availability) → List Availability → List Availability
update_where p write [] = []
update_where p write (a ∷ as_) = (if p a then write a else a) ∷ update_where p write as_

-- `AgentAvailability.unscoped.filter(tenant=tenant, user=user).first()`
unfoldable pub availability_of : ℕ → ℕ → List Availability → Option Availability
availability_of tenant user [] = none
availability_of tenant user (a ∷ as_) =
    if is_row_of tenant user a then some a else availability_of tenant user as_

-- `TenantMembership.objects.filter(user=user, tenant=tenant, is_active=True).exists()`
unfoldable pub is_member : ℕ → ℕ → List (ℕ × ℕ) → Bool
is_member tenant user ms = any (λ m. m.0 == tenant && m.1 == user) ms

-- `AgentAvailability.remaining_capacity`
abbrev pub remaining_capacity : Availability → ℕ
remaining_capacity a = a.max_concurrent_tickets - a.current_ticket_count

-- The time of the call, and `AGENT_PRESENCE_TTL_SECONDS`.
pub record Now : Type 0 where
  pub now : ℕ
  pub ttl : ℕ

-- `AgentAvailability.presence_fresh`
abbrev pub presence_fresh : Now → Availability → Bool
presence_fresh n a = elim a.last_seen [ none ↦ false | some t ↦ leb (n.now - t) n.ttl ]

-- `AgentAvailability.is_assignable`
abbrev pub is_assignable : Now → Availability → Bool
is_assignable n a =
    if not a.online
    then false
    else if remaining_capacity a == 0
    then false
    else if not (presence_fresh n a)
    then false
    else if a.auto_away_outside_hours && not a.on_duty
    then false
    else true

abbrev pub payload : LiveEvent → HubEmail → Broadcast
payload event e = record {
  event = event;
  hub_email = e.pk;
  state = e.state;
  priority = e.priority;
  queue = e.queue;
  assignee = e.assignee;
}

-- `_write_activity_log`
abbrev pub write_log : ℕ → Option ℕ → Action → Db → Db
write_log pk actor action db = record db {
  log = record { hub_email = pk; actor = actor; action = action } ∷ db.log;
}

-- `broadcast_live_event`
abbrev pub broadcast : LiveEvent → HubEmail → Db → Db
broadcast event e db = record db { live = payload event e ∷ db.live }

abbrev pub call_on_commit : OnCommit → Db → Db
call_on_commit c db = record db { on_commit = c ∷ db.on_commit }
