-- ===== src/Tickets/Macro/Kept.antt =====
-- Macros keep the times of a ticket in agreement with its status (apps/tickets/services.py).
use kanzan.Prelude.{
  ℕ, ◌≡◌, refl, Option, none, some, List, [], ◌∷◌, ◌==◌, String, arith, Bool-cases, Option-cases,
  false, inl, inr,
}
use mathlib.Core.Path.{subst, sym}
use kanzan.Tickets.Rows.{Status, Ticket, Priority, Effect, comment_posted}
use kanzan.Tickets.Status.{
  is_same, is_closed, is_resolved, pauses, transition_ticket_status, validate_status_transition,
}
use kanzan.Tickets.Status.Consistent.{is_set, IsConsistent, change_ticket_status-IsConsistent}
use kanzan.Tickets.Escalate.{same_priority, change_ticket_priority}
use kanzan.Tickets.Bulk.{Tagged}
use kanzan.Tickets.Macro.{
  Macro, MacroAction, Applied, applied, invalid, other_tenant, set_ticket, status_of_slug,
  to_status, to_priority, with_tag, take_action, take_actions, and_then, logged, schedules,
  committed, apply_macro,
}

-- What is saved before the commit, if anything, is consistent.
abbrev Saves : Applied → Type 0
Saves (applied r effects) = IsConsistent r.ticket
Saves (invalid e) = Unit
Saves other_tenant = Unit

-- The times and the snapshot agree with the status, and without a hook so does the task.
abbrev pub IsKept : Ticket → List Effect → Type 0
IsKept t effects =
    (is_set t.closed_at ≡ is_closed t.status)
    × (is_set t.resolved_at ≡ is_closed t.status)
    × (is_set t.solved_at ≡ is_resolved t.status)
    × (pauses t.status ≡ false → t.pre_wait_status ≡ none)
    × (schedules effects ≡ false → is_resolved t.status ≡ false → t.auto_close_task_id ≡ none)

abbrev pub Commits : Applied → Type 0
Commits (applied r effects) = IsKept r.ticket effects
Commits (invalid e) = Unit
Commits other_tenant = Unit

-- A ticket of another priority has the same times and status.
priority-IsConsistent :
    (t : Ticket) (p : Priority) → IsConsistent t → IsConsistent (change_ticket_priority t p).0
unfolding change_ticket_priority
priority-IsConsistent t p c = elim (Bool-cases (same_priority t.priority p)) [
  | inl same ↦ rw same c
  | inr new ↦ rw new (record {
    closed_when = c.closed_when;
    resolved_when = c.resolved_when;
    solved_when = c.solved_when;
    task_when = c.task_when;
    snapshot_when = c.snapshot_when;
  })
]

transition-Saves :
    (r : Tagged) (s : Status) (actor : Option ℕ) (now : ℕ) (before : List Effect)
    → IsConsistent r.ticket
    → Saves (set_ticket r before (transition_ticket_status r.ticket s actor now))
unfolding transition_ticket_status
transition-Saves r s actor now before c =
    elim (Bool-cases (validate_status_transition r.ticket s)) [
      | inl valid ↦ rw valid (change_ticket_status-IsConsistent r.ticket s actor now c)
      | inr not_valid ↦ rw not_valid tt
    ]

module _ (statuses : List Status) (actor now : ℕ) where
  to_status-Saves :
      (o : Option Status) (r : Tagged) (before : List Effect)
      → IsConsistent r.ticket
      → Saves (to_status statuses actor now o r before)
  to_status-Saves none r before c = c
  to_status-Saves (some s) r before c = elim (Bool-cases (is_same r.ticket.status s)) [
    | inl same ↦ rw same c
    | inr new ↦ rw new (transition-Saves r s (some actor) now before c)
  ]

  to_priority-Saves :
      (o : Option Priority) (r : Tagged) (before : List Effect)
      → IsConsistent r.ticket
      → Saves (to_priority statuses actor now o r before)
  to_priority-Saves none r before c = c
  to_priority-Saves (some p) r before c = elim (Bool-cases (same_priority p r.ticket.priority)) [
    | inl same ↦ rw same c
    | inr new ↦ rw new (priority-IsConsistent r.ticket p c)
  ]

  with_tag-ticket :
      (o : Option String) (r : Tagged) → (with_tag statuses actor now o r).ticket ≡ r.ticket
  with_tag-ticket none r = refl
  with_tag-ticket (some v) r = ground arith

  take_action-Saves :
      (a : MacroAction) (r : Tagged) (before : List Effect)
      → IsConsistent r.ticket
      → Saves (take_action statuses actor now a r before)
  unfolding take_action
  take_action-Saves (MacroAction.set_status v) r before c =
      to_status-Saves (status_of_slug statuses v) r before c
  take_action-Saves (MacroAction.set_priority p) r before c = to_priority-Saves p r before c
  take_action-Saves (MacroAction.add_tag v) r before c =
      subst IsConsistent (sym (with_tag-ticket v r)) c
  take_action-Saves MacroAction.other r before c = c

  and_then-Saves :
      (x : Applied) (next : Tagged → List Effect → Applied)
      → Saves x
      → ((r : Tagged) (effects : List Effect) → IsConsistent r.ticket → Saves (next r effects))
      → Saves (and_then statuses actor now x next)
  and_then-Saves (applied r effects) next c h = h r effects c
  and_then-Saves (invalid e) next c h = tt
  and_then-Saves other_tenant next c h = tt

  take_actions-Saves :
      (as_ : List MacroAction) (r : Tagged) (before : List Effect)
      → IsConsistent r.ticket
      → Saves (take_actions statuses actor now as_ r before)
  unfolding take_actions
  take_actions-Saves [] r before c = c
  take_actions-Saves (a ∷ as_) r before c =
      and_then-Saves (take_action statuses actor now a r before)
        (λ r' effects. take_actions statuses actor now as_ r' effects)
        (take_action-Saves a r before c) (λ r' effects c'. take_actions-Saves as_ r' effects c')

  committed-Commits :
      (task : Option ℕ) (x : Applied) → Saves x → Commits (committed statuses actor now task x)
  committed-Commits task (invalid e) c = tt
  committed-Commits task other_tenant c = tt
  committed-Commits task (applied r effects) c = elim (Bool-cases (schedules effects)) [
    | inr off ↦
        rw off (c.closed_when, c.resolved_when, c.solved_when, c.snapshot_when, λ _. c.task_when)
    | inl on ↦ elim (Option-cases task) [
      | inl failed ↦
          rw (on, failed)
            (c.closed_when, c.resolved_when, c.solved_when, c.snapshot_when, λ _. c.task_when)
      | inr (id, given) ↦
          rw (on, given) (c.closed_when, c.resolved_when, c.solved_when, c.snapshot_when, λ off. cc)
    ]
  ]

  -- A macro of any actions that is applied to a ticket whose times agree with its status leaves its
  -- closing, resolution and solution times and its snapshot in agreement with the status, or changes
  -- nothing; where no action has scheduled an automatic closure, a ticket that is not resolved has no
  -- task for one.
  pub apply_macro-Commits :
      (task : Option ℕ) (ticket_tenant : ℕ) (m : Macro) (r : Tagged)
      → IsConsistent r.ticket
      → Commits (apply_macro statuses actor now task ticket_tenant m r)
  unfolding apply_macro
  apply_macro-Commits task ticket_tenant m r c = elim (Bool-cases (m.tenant == ticket_tenant)) [
    | inr foreign ↦ rw foreign tt
    | inl same ↦ rw same (
        committed-Commits task _ (
          and_then-Saves (take_actions statuses actor now m.actions r (comment_posted ∷ []))
            (logged statuses actor now) (take_actions-Saves m.actions r (comment_posted ∷ []) c)
            (λ r' effects c'. c')))
  ]
