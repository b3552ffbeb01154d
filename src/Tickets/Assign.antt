-- ===== src/Tickets/Assign.antt =====
-- apps/tickets/services.py: `assign_ticket`. The first assignment of a ticket on the default
-- status moves it to the status `in-progress`.
pub mod Kept
use kanzan.Prelude.{
  ℕ, Bool, true, false, ◌&&◌, not, Option, none, some, List, [], ◌∷◌, ◌++◌, ◌==◌, if◌then◌else◌,
  keep, first, is_in,
}
use kanzan.Tickets.Rows.{
  Status, Ticket, Effect, assignment_row, log_activity, ticket_activity, broadcast, fire_webhooks,
  assigned, status_changed, Result, ok, raised, not_a_member,
}
use text.Mathlib.Text.{◌==◌ as str_eq}

-- `tenant_settings is None or tenant_settings.auto_transition_on_assign`
abbrev pub should_transition : Option Bool → Bool
should_transition none = true
should_transition (some auto_transition_on_assign) = auto_transition_on_assign

-- The status of an automatic change, where there is one.
pub auto_status : List Status → Option Bool → Option Status → Option Status
auto_status statuses settings none = none
auto_status statuses settings (some s) =
    if should_transition settings && s.is_default && not s.is_closed
    then elim (first (keep (λ r. str_eq r.slug "in-progress") statuses)) [
      | none ↦ none
      | some in_progress ↦ if in_progress.pk == s.pk then none else some in_progress
    ]
    else none

abbrev pub or_else : Option Status → Option Status → Option Status
or_else none old = old
or_else (some s) old = some s

-- The ticket that `assign_ticket` saves.
pub given : List Status → Option Bool → Ticket → ℕ → Option ℕ → ℕ → Ticket
given statuses settings ticket assignee actor now = record ticket {
  assignee = some assignee;
  assigned_by = actor;
  assigned_at = some now;
  status = or_else (auto_status statuses settings ticket.status) ticket.status;
}

abbrev pub status_entries : Option Status → List Effect
status_entries none = []
status_entries (some s) = log_activity status_changed ∷ ticket_activity status_changed ∷ []

-- `assign_ticket`; `members` are the active members of the tenant
pub assign_ticket : List ℕ → List Status → Option Bool → Ticket → ℕ → Option ℕ → ℕ → Result
unfolding given
assign_ticket members statuses settings ticket assignee actor now =
    if is_in assignee members
    then ok (given statuses settings ticket assignee actor now) (
        assignment_row assignee
        ∷ log_activity assigned
        ∷ ticket_activity assigned
        ∷ (status_entries (auto_status statuses settings ticket.status)
            ++ (broadcast "ticket_assigned" ∷ fire_webhooks "ticket.assigned" ∷ [])))
    else raised not_a_member
