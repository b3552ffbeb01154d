-- ===== src/Tickets/Pipeline.antt =====
-- apps/tickets/services.py and signals.py: the stage of a ticket in a pipeline. A save runs
-- `handle_ticket_status_change` on the instance first, and then writes the fields that it is told to.
use kanzan.Prelude.{
  ℕ, ◌≡◌, refl, Bool, true, false, not, Option, none, some, List, [], ◌∷◌, ◌==◌, if◌then◌else◌,
  String, keep, first, arith,
}
use text.Mathlib.Text.{◌==◌ as str_eq}
use kanzan.Tickets.Rows.{Status, Ticket, Effect, log_activity, ticket_activity, Event}
use kanzan.Tickets.Status.{is_closed, is_same, or_now, check_resolution_breach}
use kanzan.Tickets.Status.Consistent.{IsConsistent}

-- A row of `PipelineStage`.
pub record Stage : Type 0 where
  pub pk : ℕ
  pub pipeline : ℕ
  pub is_won : Bool
  pub is_lost : Bool

-- A ticket with the fields of its pipeline.
pub record Deal : Type 0 where
  pub ticket : Ticket
  pub stage : Option Stage
  pub won_at : Option ℕ
  pub won_reason : Option String
  pub lost_at : Option ℕ
  pub lost_reason : Option String

abbrev pub same_status : Option Status → Option Status → Bool
same_status none none = true
same_status (some s) none = false
same_status old (some s) = is_same old s

-- The timestamps that `handle_ticket_status_change` gives to an instance that is closed.
abbrev pub stamped : ℕ → Ticket → Ticket
stamped now t =
    let closed = record t {
      resolved_at = or_now t.resolved_at now;
      closed_at = or_now t.closed_at now;
    } in
    record closed { sla_resolution_breached = check_resolution_breach closed now }

-- `handle_ticket_status_change`, before an instance is saved over its previous row
unfoldable pub handle_ticket_status_change : ℕ → Ticket → Ticket → Ticket
handle_ticket_status_change now previous t =
    if same_status previous.status t.status
    then t
    else if is_closed t.status
    then stamped now t
    else record t { resolved_at = none; closed_at = none }

-- The save of the status alone, `update_fields=["status", "status_changed_at", …]`
unfoldable pub save_status_fields : ℕ → Ticket → Ticket → Ticket
unfolding handle_ticket_status_change
save_status_fields now row t =
    let saved = handle_ticket_status_change now row t in
    record row {
      status = saved.status;
      status_changed_at = saved.status_changed_at;
      status_changed_by = saved.status_changed_by;
    }

-- The status of a tenant by its slug, where the ticket has another one.
abbrev pub status_to_take : List Status → String → Ticket → Option Status
status_to_take statuses slug t = elim (first (keep (λ s. str_eq s.slug slug) statuses)) [
  | none ↦ none
  | some s ↦ if is_same t.status s then none else some s
]

abbrev pub restatus : Option Status → ℕ → ℕ → Ticket → Ticket
restatus none actor now t = t
restatus (some s) actor now t = record t {
  status = some s;
  status_changed_at = some now;
  status_changed_by = some actor;
}

-- The save of a ticket's stage, with its status where that is new.
abbrev pub save_row : Option Status → ℕ → ℕ → Ticket → Ticket
save_row none actor now row = row
save_row (some s) actor now row = save_status_fields now row (restatus (some s) actor now row)

-- The row after the ticket enters a stage.
unfoldable pub entered : List Status → Stage → ℕ → Option String → ℕ → Deal → Deal
entered statuses s actor reason now d =
    if s.is_won
    then record d {
      ticket = save_row (status_to_take statuses "resolved" d.ticket) actor now d.ticket;
      stage = some s;
      won_at = some now;
      won_reason = reason;
    }
    else if s.is_lost
    then record d {
      ticket = save_row (status_to_take statuses "closed" d.ticket) actor now d.ticket;
      stage = some s;
      lost_at = some now;
      lost_reason = reason;
    }
    else record d { stage = some s }

pub data Transition : Type 0 where
  moved : Deal → List Effect → Transition
  other_pipeline : Transition

-- `old_stage and old_stage.pipeline_id != new_stage.pipeline_id`
abbrev pub is_foreign : Option Stage → Stage → Bool
is_foreign none s = false
is_foreign (some old) s = not (old.pipeline == s.pipeline)

abbrev pub is_stage : Option Stage → Stage → Bool
is_stage none s = false
is_stage (some old) s = old.pk == s.pk

-- `transition_pipeline_stage`; the reason is `reason or None`
unfoldable pub transition_pipeline_stage :
    List Status → Deal → Stage → ℕ → Option String → ℕ → Transition
transition_pipeline_stage statuses d s actor reason now =
    if is_foreign d.stage s
    then other_pipeline
    else if is_stage d.stage s
    then moved d []
    else moved (entered statuses s actor reason now d) (
        log_activity Event.pipeline_stage_changed
        ∷ ticket_activity Event.pipeline_stage_changed
        ∷ [])

save_status_fields-status :
    (now : ℕ) (row t : Ticket) → (save_status_fields now row t).status ≡ t.status
unfolding save_status_fields
save_status_fields-status now row t = ground arith

save_status_fields_kept :
    (now : ℕ) (row t : Ticket)
    → ((save_status_fields now row t).closed_at ≡ row.closed_at)
      × ((save_status_fields now row t).resolved_at ≡ row.resolved_at)
unfolding save_status_fields
save_status_fields_kept now row t = (refl, refl)

-- Entering a lost stage of its pipeline gives a ticket whose status is not closed the tenant's
-- status `closed`, but neither closing time: the times that are stamped before the save are not
-- among the fields that it writes, and the row is no longer consistent.
pub transition_pipeline_stage_unstamped :
    (statuses : List Status) (d : Deal) (s : Stage) (actor now : ℕ) (reason : Option String)
    (closed : Status)
    → s.is_won ≡ false
    → s.is_lost ≡ true
    → is_foreign d.stage s ≡ false
    → is_stage d.stage s ≡ false
    → first (keep (λ r. str_eq r.slug "closed") statuses) ≡ some closed
    → closed.is_closed ≡ true
    → is_same d.ticket.status closed ≡ false
    → is_closed d.ticket.status ≡ false
    → IsConsistent d.ticket
    → (r : Deal) × (transition_pipeline_stage statuses d s actor reason now
        ≡ moved r (
            log_activity Event.pipeline_stage_changed
            ∷ ticket_activity Event.pipeline_stage_changed
            ∷ []))
      × (r.ticket.status ≡ some closed)
      × (r.ticket.closed_at ≡ none)
      × (r.ticket.resolved_at ≡ none)
      × ¬ IsConsistent r.ticket
unfolding transition_pipeline_stage entered
transition_pipeline_stage_unstamped statuses d s actor now reason closed not_won lost mine other has
      shuts new_status runs c =
    let row = save_status_fields now d.ticket (restatus (some closed) actor now d.ticket) in
    let taken : status_to_take statuses "closed" d.ticket ≡ some closed = ground arith in
    let kept = save_status_fields_kept now d.ticket (restatus (some closed) actor now d.ticket) in
    let at : row.status ≡ some closed =
      save_status_fields-status now d.ticket (restatus (some closed) actor now d.ticket) in
    let no_close : row.closed_at ≡ none = ground arith in
    let no_resolve : row.resolved_at ≡ none = ground arith in
    (
      record d { ticket = row; stage = some s; lost_at = some now; lost_reason = reason },
      rw (mine, other, not_won, lost, taken) refl,
      at,
      no_close,
      no_resolve,
      λ v. ground arith,
    )
