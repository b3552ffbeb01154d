-- ===== src/Tickets/Macro.antt =====
-- apps/tickets/services.py: a macro posts a comment on a ticket and takes its actions, in one
-- transaction. The text of the comment (`render_macro`) is left out, and an action has both its keys.
pub mod Kept
mod Tests
use kanzan.Prelude.{
  ℕ, Bool, true, false, ◌||◌, not, Option, none, some, List, [], ◌∷◌, ◌++◌, ◌==◌, if◌then◌else◌,
  String, keep, first, any,
}
use text.Mathlib.Text.{◌==◌ as str_eq}
use kanzan.Tickets.Rows.{
  Status, Ticket, Priority, Effect, Event, comment_posted, log_activity, ticket_activity, Error,
  Result, ok, raised,
}
use kanzan.Tickets.Status.{is_same, transition_ticket_status}
use kanzan.Tickets.Escalate.{same_priority, change_ticket_priority}
use kanzan.Tickets.Bulk.{Tagged}

-- An item of `macro.actions`; a value may be null.
pub data MacroAction : Type 0 where
  set_status : Option String → MacroAction
  set_priority : Option Priority → MacroAction
  add_tag : Option String → MacroAction
  other : MacroAction

pub record Macro : Type 0 where
  pub tenant : ℕ
  pub actions : List MacroAction

-- The ticket and what was logged so far, or the error that rolls all back.
pub data Applied : Type 0 where
  applied : Tagged → List Effect → Applied
  invalid : Error → Applied
  other_tenant : Applied

abbrev pub set_ticket : Tagged → List Effect → Result → Applied
set_ticket r before (ok t effects) = applied (record r { ticket = t }) (before ++ effects)
set_ticket r before (raised e) = invalid e

-- `filter(slug=value).first()`
abbrev pub status_of_slug : List Status → Option String → Option Status
status_of_slug statuses none = none
status_of_slug statuses (some slug) = first (keep (λ s. str_eq s.slug slug) statuses)

-- A change of status has asked for the hook.
abbrev pub schedules : List Effect → Bool
schedules [] = false
schedules (Effect.schedule_auto_close_and_survey ∷ effects) = true
schedules (_ ∷ effects) = schedules effects

module _ (statuses : List Status) (actor now : ℕ) where
  abbrev pub to_status : Option Status → Tagged → List Effect → Applied
  to_status none r before = applied r before
  to_status (some s) r before =
      if is_same r.ticket.status s
      then applied r before
      else set_ticket r before (transition_ticket_status r.ticket s (some actor) now)

  abbrev pub to_priority : Option Priority → Tagged → List Effect → Applied
  to_priority none r before = applied r before
  to_priority (some p) r before =
      if same_priority p r.ticket.priority
      then applied r before
      else (let c = change_ticket_priority r.ticket p in
          applied (record r { ticket = c.0 }) (before ++ c.1))

  abbrev pub with_tag : Option String → Tagged → Tagged
  with_tag none r = r
  with_tag (some v) r =
      if str_eq v "" || any (λ t. str_eq t v) r.tags
      then r
      else record r { tags = r.tags ++ (v ∷ []) }

  -- One action.
  unfoldable pub take_action : MacroAction → Tagged → List Effect → Applied
  take_action (MacroAction.set_status v) r before = to_status (status_of_slug statuses v) r before
  take_action (MacroAction.set_priority p) r before = to_priority p r before
  take_action (MacroAction.add_tag v) r before = applied (with_tag v r) before
  take_action MacroAction.other r before = applied r before

  -- What follows, unless an action raised.
  abbrev pub and_then : Applied → (Tagged → List Effect → Applied) → Applied
  and_then (applied r effects) next = next r effects
  and_then (invalid e) next = invalid e
  and_then other_tenant next = other_tenant

  unfoldable pub take_actions : List MacroAction → Tagged → List Effect → Applied
  take_actions [] r before = applied r before
  take_actions (a ∷ as_) r before =
      and_then (take_action a r before) (λ r' effects. take_actions as_ r' effects)

  abbrev pub logged : Tagged → List Effect → Applied
  logged r effects =
      applied r
        (effects ++ (log_activity Event.macro_applied ∷ ticket_activity Event.commented ∷ []))

  -- `_schedule_auto_close`, after the commit, whatever the status is by then; none is a task that
  -- cannot be scheduled
  abbrev pub with_task : Option ℕ → Tagged → Tagged
  with_task none r = r
  with_task (some task) r = record r { ticket = record r.ticket { auto_close_task_id = some task } }

  abbrev pub committed : Option ℕ → Applied → Applied
  committed task (applied r effects) =
      applied (if schedules effects then with_task task r else r) effects
  committed task (invalid e) = invalid e
  committed task other_tenant = other_tenant

  -- `apply_macro`, with the hooks of its commit; `task` is the key of the last task that they schedule
  unfoldable pub apply_macro : Option ℕ → ℕ → Macro → Tagged → Applied
  apply_macro task ticket_tenant m r =
      if m.tenant == ticket_tenant
      then committed task (and_then (take_actions m.actions r (comment_posted ∷ [])) logged)
      else other_tenant
