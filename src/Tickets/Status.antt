-- ===== src/Tickets/Status.antt =====
-- apps/tickets/services.py: status changes of a ticket. A function returns the ticket as it is
-- saved and what was written to the logs, sent, or scheduled for the commit, in that order.
pub mod Consistent
pub mod Moves
use kanzan.Prelude.{
  ℕ, ◌+◌, Bool, true, false, ◌&&◌, not, Option, none, some, List, [], ◌∷◌, ◌++◌, ◌==◌, ltb,
  if◌then◌else◌, String, keep, first, any,
}
use kanzan.Tickets.Rows.{
  Effect, Error, Event, Result, Status, Ticket, assigned, assignment_row, auto_closed,
  breach_logged, breach_notice, broadcast, closed, emit_sla_first_response_breached,
  emit_sla_resolution_breached, emit_ticket_closed, escalated_manual, fire_webhooks, first_response,
  internal_comment, log_activity, log_sla_change, no_closed_status, not_a_member, ok,
  pipeline_stage_changed, priority_changed, raised, reopened, resolution_breach, response_breach,
  revoke_auto_close, rule_fired, rule_notice, schedule_auto_close_and_survey, sla_paused,
  sla_resumed, status_changed, ticket_activity, validation_error,
}
use text.Mathlib.Text.{◌==◌ as str_eq}

-- `ALLOWED_TRANSITIONS.get(slug)`
unfoldable pub allowed_transitions : String → Option (List String)
allowed_transitions slug =
    if str_eq slug "open"
    then some ("in-progress" ∷ "waiting" ∷ "resolved" ∷ "closed" ∷ [])
    else if str_eq slug "in-progress"
    then some ("open" ∷ "waiting" ∷ "resolved" ∷ "closed" ∷ [])
    else if str_eq slug "waiting"
    then some ("open" ∷ "in-progress" ∷ "resolved" ∷ "closed" ∷ [])
    else if str_eq slug "resolved"
    then some ("closed" ∷ "open" ∷ [])
    else if str_eq slug "closed"
    then some []
    else none

-- `validate_status_transition`; false is a ValidationError
unfoldable pub validate_status_transition : Ticket → Status → Bool
validate_status_transition ticket new_status = elim ticket.status [
  | none ↦ true
  | some old_status ↦
      if old_status.pk == new_status.pk then true else elim (allowed_transitions old_status.slug) [
        | none ↦ true
        | some allowed ↦ any (λ s. str_eq s new_status.slug) allowed
      ]
]

-- `old_status.slug == "resolved"`, of a status that may be missing
abbrev pub is_resolved : Option Status → Bool
is_resolved none = false
is_resolved (some s) = str_eq s.slug "resolved"

abbrev pub is_closed : Option Status → Bool
is_closed none = false
is_closed (some s) = s.is_closed

abbrev pub pauses : Option Status → Bool
pauses none = false
pauses (some s) = s.pauses_sla

-- `x or y`, of times that may be missing
abbrev pub or_now : Option ℕ → ℕ → Option ℕ
or_now none now = some now
or_now (some t) now = some t

-- `_check_resolution_breach`, as the new value of the flag
abbrev pub check_resolution_breach : Ticket → ℕ → Bool
check_resolution_breach ticket now =
    if ticket.sla_resolution_breached then true else elim ticket.sla_resolution_due [
      | none ↦ false
      | some due ↦ elim ticket.closed_at [ none ↦ ltb due now | some at ↦ ltb due at ]
    ]

-- The snapshot of the status before a wait.
pub snapshot : Option Status → Status → Ticket → Ticket
snapshot old_status new_status t =
    if new_status.pauses_sla && not (pauses old_status)
    then record t { pre_wait_status = old_status }
    else if pauses old_status && not new_status.pauses_sla
    then record t { pre_wait_status = none }
    else t

-- The time of the solution, and the task that would close the ticket.
pub solution : Option Status → Status → ℕ → Ticket → Ticket
solution old_status new_status now t =
    if is_resolved (some new_status) && not (is_resolved old_status)
    then record t { solved_at = some now }
    else if is_resolved old_status && not (is_resolved (some new_status))
    then record t { solved_at = none; auto_close_task_id = none }
    else t

-- The times of the closure.
pub closure : Option Status → Status → ℕ → Ticket → Ticket
closure old_status new_status now t =
    if new_status.is_closed && not (is_closed old_status)
    then record t { resolved_at = or_now t.resolved_at now; closed_at = or_now t.closed_at now }
    else if is_closed old_status && not new_status.is_closed
    then record t { resolved_at = none; closed_at = none }
    else t

-- The check for a breach at the closure.
pub breach : Option Status → Status → ℕ → Ticket → Ticket
breach old_status new_status now t =
    if new_status.is_closed && not (is_closed old_status)
    then record t { sla_resolution_breached = check_resolution_breach t now }
    else t

-- The ticket that `change_ticket_status` saves.
unfoldable pub changed : Option Status → Status → Option ℕ → ℕ → Ticket → Ticket
unfolding snapshot solution closure breach
changed old_status new_status actor now ticket = breach old_status new_status now (
    closure old_status new_status now (
      solution old_status new_status now (
        snapshot old_status new_status (record ticket {
          status = some new_status;
          status_changed_at = some now;
          status_changed_by = actor;
        }))))

-- The event of the log entries.
pub change_event : Option Status → Status → Event
change_event old_status new_status =
    if new_status.is_closed && not (is_closed old_status)
    then closed
    else if is_closed old_status && not new_status.is_closed
    then reopened
    else status_changed

-- `_cancel_auto_close_task`
pub cancel_auto_close : Option Status → Status → Ticket → List Effect
cancel_auto_close old_status new_status ticket =
    if is_resolved old_status && not (is_resolved (some new_status))
    then elim ticket.auto_close_task_id [ none ↦ [] | some task ↦ revoke_auto_close task ∷ [] ]
    else []

abbrev pub only_if : Bool → Effect → List Effect
only_if true e = e ∷ []
only_if false e = []

-- What `change_ticket_status` does beside saving the ticket.
pub change_effects : Option Status → Status → Ticket → Ticket → List Effect
unfolding change_event cancel_auto_close
change_effects old_status new_status before after =
    let event = change_event old_status new_status in
    let closing = new_status.is_closed && not (is_closed old_status) in
    let reopening = is_closed old_status && not new_status.is_closed in
    cancel_auto_close old_status new_status before
    ++ (log_activity event
        ∷ ticket_activity event
        ∷ (only_if (is_resolved (some new_status) && not (is_resolved old_status))
              schedule_auto_close_and_survey
            ++ (only_if closing emit_ticket_closed
                ++ (only_if (closing && after.sla_resolution_breached) emit_sla_resolution_breached
                    ++ (broadcast (if closing then "ticket_closed" else "ticket_updated")
                        ∷ fire_webhooks (
                            if closing
                            then "ticket.closed"
                            else if reopening
                            then "ticket.reopened"
                            else "ticket.updated")
                        ∷ [])))))

-- `old_status and old_status.pk == new_status.pk`
abbrev pub is_same : Option Status → Status → Bool
is_same none new_status = false
is_same (some s) new_status = s.pk == new_status.pk

-- `change_ticket_status`
unfoldable pub change_ticket_status : Ticket → Status → Option ℕ → ℕ → Ticket × List Effect
change_ticket_status ticket new_status actor now =
    if is_same ticket.status new_status
    then (ticket, [])
    else (let after = changed ticket.status new_status actor now ticket in
        (after, change_effects ticket.status new_status ticket after))

-- `transition_ticket_status`
unfoldable pub transition_ticket_status : Ticket → Status → Option ℕ → ℕ → Result
transition_ticket_status ticket new_status actor now =
    if validate_status_transition ticket new_status
    then (let r = change_ticket_status ticket new_status actor now in ok r.0 r.1)
    else raised validation_error

-- `close_ticket`; the statuses of the tenant stand in their order
pub close_ticket : List Status → Ticket → Option ℕ → ℕ → Result
close_ticket statuses ticket actor now =
    if is_closed ticket.status
    then ok ticket []
    else elim (first (keep (λ s. s.is_closed) statuses)) [
      | none ↦ raised no_closed_status
      | some closed_status ↦ transition_ticket_status ticket closed_status actor now
    ]

-- `TicketStatus.objects.get(pk=target.pk)`, of a snapshot that may be missing
abbrev pub refetch : List Status → Option Status → Option Status
refetch statuses none = none
refetch statuses (some s) = first (keep (λ r. r.pk == s.pk) statuses)

-- The target of `resume_from_wait`.
unfoldable pub resume_target : List Status → Ticket → Option Status
resume_target statuses ticket =
    let fallback = first (keep (λ s. str_eq s.slug "open") statuses) in
    elim (refetch statuses ticket.pre_wait_status) [
      | none ↦ fallback
      | some s ↦ if s.is_closed then fallback else if s.pauses_sla then fallback else some s
    ]

-- `resume_from_wait`
pub resume_from_wait : List Status → Ticket → Option ℕ → ℕ → Ticket × List Effect
resume_from_wait statuses ticket actor now =
    if not (pauses ticket.status) then (ticket, []) else elim (resume_target statuses ticket) [
      | none ↦ (ticket, [])
      | some target ↦
          if is_same ticket.status target
          then (ticket, [])
          else change_ticket_status ticket target actor now
    ]
