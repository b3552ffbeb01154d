-- ===== src/Hub/Park.antt =====
-- apps/inbox_hub/services.py: `park_email_in_hub` and `_initialize_hub_sla`.
pub mod Idempotent
use kanzan.Prelude.{
  ℕ, ◌+◌, ◌*◌, Bool, true, false, ◌&&◌, Option, none, some, List, [], ◌∷◌, ◌==◌, if◌then◌else◌,
  keep, first,
}
use kanzan.Sla.Clock.{minute}
use kanzan.Hub.State.{State}
use kanzan.Hub.Store.{
  HubEmail, Inbound, InboundStatus, Priority, low, normal, high, urgent, Action, LiveEvent,
  OnCommit, Db, save, save_inbound, write_log, broadcast, call_on_commit,
}
use kanzan.Hub.Reassign.{is_key}

-- `HubEmail.objects.filter(inbound=inbound)`, of which there is one row at most
unfoldable pub parked : ℕ → List HubEmail → Option HubEmail
parked inbound es = first (keep (λ e. is_key e.inbound inbound) es)

-- The row that `get_or_create` creates, with the key that the database gives it.
abbrev pub new_row : ℕ → ℕ → ℕ → Option ℕ → HubEmail
new_row pk inbound tenant contact = record {
  pk = pk;
  tenant = tenant;
  inbound = some inbound;
  contact = contact;
  department = none;
  queue = none;
  assignee = none;
  state = State.new;
  priority = normal;
  category = "";
  sla_response_due_at = none;
  sla_resolution_due_at = none;
  first_responded_at = none;
  first_assigned_at = none;
  escalation_count = 0;
  escalated_to = none;
  converted_ticket = none;
  dismissed_at = none;
  dismissed_by = none;
  dismissal_reason = "";
}

abbrev pub mark_parked : ℕ → Db → Db
mark_parked inbound db = record db {
  inbounds =
      save_inbound (some inbound) (λ i. record i { status = InboundStatus.parked_in_hub })
        db.inbounds;
}

-- What follows the creation of a row.
abbrev pub announce : HubEmail → ℕ → Db → Db
announce e system_user db =
    call_on_commit (OnCommit.post_park_hooks e.pk)
      (broadcast LiveEvent.created e (write_log e.pk (some system_user) Action.email_received db))

-- `park_email_in_hub`
unfoldable pub park_email_in_hub : ℕ → ℕ → Option ℕ → ℕ → ℕ → Db → HubEmail × Db
park_email_in_hub inbound tenant contact system_user pk db = elim (parked inbound db.emails) [
  | some e ↦ (e, mark_parked inbound db)
  | none ↦
      let e = new_row pk inbound tenant contact in
      (e, announce e system_user (mark_parked inbound (record db { emails = e ∷ db.emails })))
]

-- A row of `HubEmailSLA`.
pub record HubEmailSla : Type 0 where
  pub tenant : ℕ
  pub queue : Option ℕ
  pub department : Option ℕ
  pub priority : Priority
  pub response_minutes : ℕ
  pub resolution_minutes : ℕ

abbrev pub priority_number : Priority → ℕ
priority_number low = 0
priority_number normal = 1
priority_number high = 2
priority_number urgent = 3

abbrev pub is_policy_of : HubEmail → HubEmailSla → Bool
is_policy_of e p = p.tenant == e.tenant && priority_number p.priority == priority_number e.priority

-- The two queries for a policy.
abbrev pub queue_policy : List HubEmailSla → HubEmail → Option HubEmailSla
queue_policy policies e = elim e.queue [
  | none ↦ none
  | some q ↦ first (keep (λ p. is_policy_of e p && is_key p.queue q) policies)
]

abbrev pub department_policy : List HubEmailSla → HubEmail → Option HubEmailSla
department_policy policies e = elim e.department [
  | none ↦ none
  | some d ↦ first (keep (λ p. is_policy_of e p && is_key p.department d) policies)
]

-- The policy that the deadlines are taken from.
unfoldable pub policy_of : List HubEmailSla → HubEmail → Option HubEmailSla
policy_of policies e = elim (queue_policy policies e) [
  | none ↦ department_policy policies e
  | some p ↦ some p
]

abbrev pub with_deadlines : HubEmailSla → ℕ → HubEmail → HubEmail
with_deadlines p now e = record e {
  sla_response_due_at = some (now + p.response_minutes * minute);
  sla_resolution_due_at = some (now + p.resolution_minutes * minute);
}

-- `_initialize_hub_sla`
unfoldable pub initialize_hub_sla : List HubEmailSla → ℕ → HubEmail → Db → HubEmail × Db
initialize_hub_sla policies now e db = elim (policy_of policies e) [
  | none ↦ (e, db)
  | some p ↦
      (with_deadlines p now e, record db { emails = save e.pk (with_deadlines p now) db.emails })
]
