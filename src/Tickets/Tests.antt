-- ===== src/Tickets/Tests.antt =====
-- Runs of the ticket services' model at concrete tickets and statuses.
use kanzan.Prelude.{ℕ, ◌≡◌, refl, true, false, none, some, [], ◌∷◌}
use kanzan.Tickets.Samples.{
  open_status, waiting, closed_status, statuses, fresh, fresh-IsConsistent,
}
use kanzan.Tickets.Rows.{Event, log_activity, ticket_activity}
use kanzan.Tickets.Status.{change_ticket_status, resume_from_wait}
use kanzan.Tickets.Status.Consistent.{IsConsistent, change_ticket_status-IsConsistent}
use kanzan.Tickets.Status.Moves.{resume_from_wait-change_ticket_status}
use kanzan.Tickets.Respond.{Call}
use kanzan.Tickets.Pipeline.{
  Stage, Deal, moved, transition_pipeline_stage, transition_pipeline_stage_unstamped,
}

change_ticket_status-IsConsistent_example :
    IsConsistent (change_ticket_status fresh closed_status (some 7) 900).0
change_ticket_status-IsConsistent_example =
    change_ticket_status-IsConsistent fresh closed_status (some 7) 900 fresh-IsConsistent

resume_from_wait-change_ticket_status_example :
    (resume_from_wait statuses
      (change_ticket_status fresh waiting (some 7) 900).0
      none
      950).0.status
    ≡ some open_status
resume_from_wait-change_ticket_status_example =
    resume_from_wait-change_ticket_status statuses fresh open_status waiting (some 7) none 900 950
      refl refl refl refl refl refl

-- The answer of an agent, and a second one by an old copy of the row.
abbrev call : ℕ → Call
call now = record { actor = some 7; now = now; ticket = fresh }

abbrev lost_stage : Stage
lost_stage = record { pk = 3; pipeline = 1; is_won = false; is_lost = true }

abbrev deal : Deal
deal = record {
  ticket = fresh;
  stage = none;
  won_at = none;
  won_reason = none;
  lost_at = none;
  lost_reason = none;
}

transition_pipeline_stage_unstamped_example :
    (r : Deal) × (transition_pipeline_stage statuses deal lost_stage 7 none 900
      ≡ moved r (
          log_activity Event.pipeline_stage_changed
          ∷ ticket_activity Event.pipeline_stage_changed
          ∷ []))
    × (r.ticket.status ≡ some closed_status)
    × (r.ticket.closed_at ≡ none)
    × (r.ticket.resolved_at ≡ none)
    × ¬ IsConsistent r.ticket
transition_pipeline_stage_unstamped_example =
    transition_pipeline_stage_unstamped statuses deal lost_stage 7 900 none closed_status refl refl
      refl refl refl refl refl refl fresh-IsConsistent
