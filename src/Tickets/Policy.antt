-- ===== src/Tickets/Policy.antt =====
-- apps/tickets/signals.py and tasks.py: an edited policy changes the deadlines of its open tickets,
-- at once or, for more than 50 tickets, in a task after the commit. Errors of single rows, which the
-- code logs and passes over, do not occur here.
pub mod Edited
mod Tests
use kanzan.Prelude.{
  ℕ, ◌*◌, Bool, true, false, ◌&&◌, not, Option, none, some, List, [], ◌∷◌, ◌++◌, ◌==◌, ltb,
  if◌then◌else◌, map, keep, length, is_in,
}
use kanzan.Sla.Clock.{Zones, Tenant, minute}
use kanzan.Sla.Add.{add_business_time}
use kanzan.Tickets.Rows.{Status, Ticket, Effect}
use kanzan.Tickets.Pause.{sla_change}
use kanzan.Tickets.Escalate.{SlaPolicy}

-- `status__is_closed=False`, which a ticket with no status does not meet
abbrev pub has_open_status : Option Status → Bool
has_open_status none = false
has_open_status (some s) = not s.is_closed

abbrev pub has_policy : Option ℕ → ℕ → Bool
has_policy none pk = false
has_policy (some p) pk = p == pk

-- The query for the affected tickets.
abbrev pub is_affected : ℕ → Ticket → Bool
is_affected policy t = has_policy t.sla_policy policy && has_open_status t.status

unfoldable pub affected_ids : ℕ → List Ticket → List ℕ
affected_ids policy ts = map (λ (t : Ticket). t.pk) (keep (is_affected policy) ts)

-- The tickets after the signal, what was logged, and the tasks for the commit.
pub record Propagated : Type 0 where
  pub tickets : List Ticket
  pub effects : List Effect
  pub tasks : List (List ℕ)

module _ (z : Zones) (tenant : Tenant) where
  abbrev pub recalculated : SlaPolicy → Ticket → Ticket
  recalculated policy t = record t {
    sla_first_response_due =
        some
          (add_business_time z t.created_at (policy.terms.first_response_minutes * minute) tenant);
    sla_resolution_due =
        some (add_business_time z t.created_at (policy.terms.resolution_minutes * minute) tenant);
  }

  -- `_apply_policy_to_tickets`
  unfoldable pub apply_policy_to_tickets :
      SlaPolicy → List ℕ → List Ticket → List Ticket × List Effect
  apply_policy_to_tickets policy ids [] = ([], [])
  apply_policy_to_tickets policy ids (t ∷ ts) =
      let rest = apply_policy_to_tickets policy ids ts in
      let after = recalculated policy t in
      if is_in t.pk ids
      then (
        after ∷ rest.0,
        sla_change t.sla_first_response_due t.sla_resolution_due after ++ rest.1,
      )
      else (t ∷ rest.0, rest.1)

  -- What is done for the listed tickets.
  abbrev pub propagate_to : SlaPolicy → List ℕ → List Ticket → Propagated
  propagate_to policy [] ts = record { tickets = ts; effects = []; tasks = [] }
  propagate_to policy (i ∷ ids) ts =
      if ltb 50 (length (i ∷ ids))
      then record { tickets = ts; effects = []; tasks = (i ∷ ids) ∷ [] }
      else (let done = apply_policy_to_tickets policy (i ∷ ids) ts in
          record { tickets = done.0; effects = done.1; tasks = [] })

  -- `propagate_sla_policy_change`
  unfoldable pub propagate_sla_policy_change : Bool → SlaPolicy → List Ticket → Propagated
  propagate_sla_policy_change true policy ts = record { tickets = ts; effects = []; tasks = [] }
  propagate_sla_policy_change false policy ts = propagate_to policy (affected_ids policy.pk ts) ts

  -- `propagate_sla_policy_change_task`, for each task in turn; the policy is read again
  unfoldable pub propagate_tasks : SlaPolicy → Propagated → List (List ℕ) → Propagated
  propagate_tasks policy p [] = p
  propagate_tasks policy p (ids ∷ rest) =
      let done = apply_policy_to_tickets policy ids p.tickets in
      propagate_tasks policy
        (record { tickets = done.0; effects = p.effects ++ done.1; tasks = [] }) rest
