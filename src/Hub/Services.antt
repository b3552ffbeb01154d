-- ===== src/Hub/Services.antt =====
-- apps/inbox_hub/services.py: the operations on one hub email. The first argument is the caller's
-- copy of the row, which some operations read again under a lock and others do not.
pub mod Lifecycle
use kanzan.Prelude.{
  ℕ, zero, suc, ◌+◌, ◌-◌, ◌*◌, Bool, true, false, ◌&&◌, not, Option, none, some, List, [], ◌∷◌,
  ◌==◌, leb, ltb, if◌then◌else◌, String, get,
}
use kanzan.Hub.State
use kanzan.Hub.State.{State, same_state, can_transition, is_terminal}
use kanzan.Hub.Store.{
  HubEmail, Inbound, InboxStatus, InboundStatus, Availability, Priority, Reason, Assignment, Action,
  LiveEvent, OnCommit, Db, Error, Result, ok, raised, find, save, save_inbound, is_row_of,
  update_where, is_member, write_log, broadcast, call_on_commit,
}

-- `x is None`
abbrev pub is_none : Option ℕ → Bool
is_none none = true
is_none (some _) = false

-- `x if x is not None else y`, for a stamp that is set once
abbrev pub stamp : Option ℕ → ℕ → Option ℕ
stamp none now = some now
stamp (some t) now = some t

-- `text[:n]`
abbrev pub truncate : ℕ → String → String
truncate zero s = String.[]
truncate (suc n) String.[] = String.[]
truncate (suc n) (String.◌∷◌ c s) = String.◌∷◌ c (truncate n s)

-- `transition_hub_email`: the states of `RESPONSE_STATES`
abbrev pub is_response : State → Bool
is_response State.in_progress = true
is_response State.pending_agent = true
is_response State.awaiting_customer = true
is_response State.resolved = true
is_response _ = false

-- The fields that `transition_hub_email` sets on its copy `he`, on that copy and on the row.
transition_copy : State → ℕ → HubEmail → HubEmail
transition_copy new_state now he = record he {
  state = new_state;
  first_responded_at =
      if is_response new_state then stamp he.first_responded_at now else he.first_responded_at;
}

transition_row : HubEmail → State → ℕ → HubEmail → HubEmail
transition_row he new_state now row = record row {
  state = new_state;
  first_responded_at =
      if is_response new_state && is_none he.first_responded_at
      then some now
      else row.first_responded_at;
}

-- The part of `transition_hub_email` after its guard.
pub transition_save : HubEmail → State → Option ℕ → ℕ → Db → HubEmail × Db
unfolding transition_copy transition_row
transition_save he new_state actor now db =
    let he' = transition_copy new_state now he in
    let db1 = record db { emails = save he.pk (transition_row he new_state now) db.emails } in
    let db2 = write_log he.pk actor Action.status_changed db1 in
    (he', broadcast LiveEvent.transitioned he' db2)

-- `transition_hub_email`
pub transition_hub_email : HubEmail → State → Option ℕ → ℕ → Db → Result (HubEmail × Db)
transition_hub_email he new_state actor now db =
    if can_transition he.state new_state
    then ok (transition_save he new_state actor now db)
    else raised Error.illegal_transition

-- The fields that `convert_to_ticket` saves, from its copy `he` to the row.
convert_row : HubEmail → ℕ → ℕ → HubEmail → HubEmail
convert_row he ticket now row = record row {
  state = State.converted_to_ticket;
  converted_ticket = some ticket;
  first_responded_at = if is_none he.first_responded_at then some now else row.first_responded_at;
}

-- The row of the inbound email that `_create_ticket_from_email` saves.
abbrev pub created : ℕ → Inbound → Inbound
created ticket i = record i { status = InboundStatus.ticket_created; ticket = some ticket }

-- The part of `convert_to_ticket` under the lock, after its guards; `ticket` is the one that
-- `_create_ticket_from_email` creates.
pub convert_locked : HubEmail → ℕ → ℕ → ℕ → Db → ℕ × Db
unfolding convert_row
convert_locked he actor ticket now db =
    let he' = convert_row he ticket now he in
    let db1 = record db {
      tickets = ticket ∷ db.tickets;
      inbounds = save_inbound he.inbound (created ticket) db.inbounds;
      emails = save he.pk (convert_row he ticket now) db.emails;
    } in
    let db2 = write_log he.pk (some actor) Action.email_converted_to_ticket db1 in
    (ticket, broadcast LiveEvent.converted he' db2)

-- `_create_ticket_from_email` raises ValueError where the tenant has no status.
pub convert_created : Bool → HubEmail → ℕ → ℕ → ℕ → Db → Result (ℕ × Db)
convert_created true he actor ticket now db = ok (convert_locked he actor ticket now db)
convert_created false he actor ticket now db = raised Error.no_status

-- The guards of `convert_to_ticket`, on the copy that was read again; the first argument says
-- whether the tenant has a status.
pub convert_guarded : Bool → HubEmail → ℕ → ℕ → ℕ → Db → Result (ℕ × Db)
convert_guarded has_status he actor ticket now db =
    if same_state he.state State.converted_to_ticket
    then elim he.converted_ticket [
      | some existing ↦ ok (existing, db)
      | none ↦ convert_created has_status he actor ticket now db
    ]
    else if can_transition he.state State.converted_to_ticket
    then convert_created has_status he actor ticket now db
    else raised Error.illegal_transition

-- `convert_to_ticket`
pub convert_to_ticket : Bool → HubEmail → ℕ → ℕ → ℕ → Db → Result (ℕ × Db)
convert_to_ticket has_status he actor ticket now db = elim (find he.pk db.emails) [
  | none ↦ raised Error.does_not_exist
  | some locked ↦
      convert_guarded has_status
        (record he {
          state = locked.state;
          converted_ticket = locked.converted_ticket;
          first_responded_at = locked.first_responded_at;
        })
        actor ticket now db
]

dismiss_row : ℕ → String → ℕ → HubEmail → HubEmail
dismiss_row actor reason now row = record row {
  state = State.dismissed;
  dismissed_at = some now;
  dismissed_by = some actor;
  dismissal_reason = truncate 255 reason;
}

pub dismiss_save : HubEmail → ℕ → String → ℕ → Db → HubEmail × Db
unfolding dismiss_row
dismiss_save he actor reason now db =
    let he' = dismiss_row actor reason now he in
    let db1 = record db { emails = save he.pk (dismiss_row actor reason now) db.emails } in
    let db2 = write_log he.pk (some actor) Action.email_dismissed db1 in
    (he', broadcast LiveEvent.dismissed he' db2)

-- `dismiss_hub_email` on the copy that was read again
pub dismiss_guarded : HubEmail → ℕ → String → ℕ → Db → Result (HubEmail × Db)
dismiss_guarded he actor reason now db =
    if same_state he.state State.dismissed
    then ok (he, db)
    else if can_transition he.state State.dismissed
    then ok (dismiss_save he actor reason now db)
    else raised Error.illegal_transition

-- `dismiss_hub_email`
pub dismiss_hub_email : HubEmail → ℕ → String → ℕ → Db → Result (HubEmail × Db)
dismiss_hub_email he actor reason now db = elim (find he.pk db.emails) [
  | none ↦ raised Error.does_not_exist
  | some locked ↦ dismiss_guarded (record he { state = locked.state }) actor reason now db
]

-- `hub_email.department.lead if hub_email.department_id else None`
abbrev pub lead_of : HubEmail → Db → Option ℕ
lead_of he db = elim he.department [ none ↦ none | some d ↦ get d db.leads ]

escalate_row : HubEmail → Db → HubEmail → HubEmail
escalate_row he db row = record row {
  escalation_count = he.escalation_count + 1;
  state = State.escalated;
  escalated_to = elim (lead_of he db) [ none ↦ row.escalated_to | some u ↦ some u ];
}

escalate_save : HubEmail → Option ℕ → Db → HubEmail × Db
unfolding escalate_row
escalate_save he actor db =
    let he' = escalate_row he db he in
    let db1 = record db { emails = save he.pk (escalate_row he db) db.emails } in
    let db2 = write_log he.pk actor Action.email_escalated db1 in
    let db3 = broadcast LiveEvent.escalated he' db2 in
    (
      he',
      elim (lead_of he db) [
        | none ↦ db3
        | some u ↦ call_on_commit (OnCommit.notify_escalation he.pk u) db3
      ],
    )

-- `escalate_hub_email`
pub escalate_hub_email : HubEmail → Option ℕ → Db → HubEmail × Db
escalate_hub_email he actor db =
    if not (can_transition he.state State.escalated) then (he, db) else escalate_save he actor db
