-- ===== src/Tickets/Escalate.antt =====
-- apps/tickets/services.py: the first deadlines of a ticket, its manual escalation, which extends
-- them, and a change of priority. Minutes are kept as microseconds; the half of the remaining time
-- is rounded down.
pub mod Extended
mod Tests
use kanzan.Prelude.{
  ℕ, suc, ◌+◌, ◌-◌, ◌*◌, ◌/◌, min, max, Bool, true, false, ◌&&◌, not, Option, none, some, List, [],
  ◌∷◌, ◌++◌, ◌==◌, leb, if◌then◌else◌, keep, first, is_in,
}
use kanzan.Sla.Clock.{Zones, Tenant, minute}
use kanzan.Sla.Count.{Policy}
use kanzan.Sla.Add.{add_business_time}
use kanzan.Tickets.Rows.{
  Priority, Ticket, Event, Effect, assignment_row, log_activity, ticket_activity, internal_comment,
  fire_webhooks, Result, ok, raised, not_a_member,
}
use kanzan.Tickets.Pause.{sla_change}

-- A row of `SLAPolicy`.
pub record SlaPolicy : Type 0 where
  pub pk : ℕ
  pub priority : Priority
  pub is_active : Bool
  pub terms : Policy

-- `a == b`, of priorities
abbrev pub rank : Priority → ℕ
rank Priority.low = 0
rank Priority.medium = 1
rank Priority.high = 2
rank Priority.urgent = 3

abbrev pub same_priority : Priority → Priority → Bool
same_priority a b = rank a == rank b

-- `SLAPolicy.unscoped.filter(tenant=…, priority=…, is_active=True).first()`
abbrev pub policy_for : List SlaPolicy → Priority → Option SlaPolicy
policy_for policies priority =
    first (keep (λ p. same_priority p.priority priority && p.is_active) policies)

-- `MIN_EXTENSION_MINUTES`
abbrev pub min_extension : ℕ
min_extension = 15 * minute

module _ (z : Zones) (tenant : Tenant) where
  abbrev pub started : ℕ → SlaPolicy → Ticket → Ticket
  started now policy t = record t {
    sla_policy = some policy.pk;
    sla_first_response_due =
        some (add_business_time z now (policy.terms.first_response_minutes * minute) tenant);
    sla_resolution_due =
        some (add_business_time z now (policy.terms.resolution_minutes * minute) tenant);
  }

  -- `initialize_sla`
  unfoldable pub initialize_sla : List SlaPolicy → ℕ → Ticket → Ticket
  initialize_sla policies now t = elim (policy_for policies t.priority) [
    | none ↦ t
    | some policy ↦ started now policy t
  ]

  -- `_extend_deadline`
  unfoldable pub extend_deadline : ℕ → Option ℕ → ℕ → ℕ
  extend_deadline now none policy_minutes = add_business_time z now (policy_minutes * minute) tenant
  extend_deadline now (some current_due) policy_minutes =
      if leb current_due now
      then add_business_time z now min_extension tenant
      else (let raw_extension = (current_due - now) / 2 in
          let clamped = max min_extension (min raw_extension (policy_minutes * minute)) in
          add_business_time z current_due clamped tenant)

  abbrev pub extended : ℕ → SlaPolicy → Ticket → Ticket
  extended now policy t = record t {
    sla_policy = some policy.pk;
    sla_first_response_due =
        some (extend_deadline now t.sla_first_response_due policy.terms.first_response_minutes);
    sla_resolution_due =
        some (extend_deadline now t.sla_resolution_due policy.terms.resolution_minutes);
    sla_extended_at = some now;
  }

  -- `_extend_sla_on_escalation`
  unfoldable pub extend_sla_on_escalation : List SlaPolicy → ℕ → Ticket → Ticket × List Effect
  extend_sla_on_escalation policies now t = elim (policy_for policies t.priority) [
    | none ↦ (t, [])
    | some policy ↦
        let after = extended now policy t in
        (after, sla_change t.sla_first_response_due t.sla_resolution_due after)
  ]

  abbrev pub handed : Option ℕ → ℕ → ℕ → Ticket → Ticket
  handed none actor now t = t
  handed (some assignee) actor now t = record t {
    assignee = some assignee;
    assigned_by = some actor;
    assigned_at = some now;
  }

  abbrev pub handed_row : Option ℕ → List Effect
  handed_row none = []
  handed_row (some assignee) = assignment_row assignee ∷ []

  abbrev pub queued : Option ℕ → Ticket → Ticket
  queued none t = t
  queued (some queue) t = record t { queue = some queue }

  abbrev pub may_take : List ℕ → Option ℕ → Bool
  may_take members none = true
  may_take members (some assignee) = is_in assignee members

  -- The ticket that is saved before its deadlines are extended.
  abbrev pub counted : ℕ → Option ℕ → Option ℕ → ℕ → Ticket → Ticket
  counted actor assignee queue now t = queued queue (
      handed assignee actor now
        (record t { escalation_count = t.escalation_count + 1; escalated_at = some now }))

  -- `escalate_ticket`; `members` are the active members of the tenant
  unfoldable pub escalate_ticket :
      List ℕ → List SlaPolicy → Ticket → ℕ → Option ℕ → Option ℕ → ℕ → Result
  escalate_ticket members policies t actor assignee queue now =
      if may_take members assignee
      then (let r = extend_sla_on_escalation policies now (counted actor assignee queue now t) in
          ok r.0 (
            handed_row assignee
            ++ (internal_comment ∷ []
                ++ (r.1
                    ++ (log_activity Event.escalated_manual
                        ∷ ticket_activity Event.escalated_manual
                        ∷ fire_webhooks "ticket.escalated"
                        ∷ [])))))
      else raised not_a_member

-- `change_ticket_priority`
unfoldable pub change_ticket_priority : Ticket → Priority → Ticket × List Effect
change_ticket_priority t new_priority = if same_priority t.priority new_priority then (t, []) else (
  record t { priority = new_priority },
  log_activity Event.priority_changed ∷ ticket_activity Event.priority_changed ∷ [],
)
