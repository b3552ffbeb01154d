-- ===== src/Tickets/Pause.antt =====
-- apps/tickets/signals.py: a status that pauses the clock opens a row of `SLAPause`; leaving it
-- closes the row and moves the deadlines by the business time of the pause. The rows of a ticket
-- stand in their order, the latest first.
pub mod Clocked
pub mod Resumes
pub mod Wait
mod Tests
use kanzan.Prelude.{
  ℕ, ◌+◌, Bool, true, false, ◌&&◌, ◌||◌, not, Option, none, some, List, [], ◌∷◌, ◌++◌, ◌==◌, ltb,
  leb, if◌then◌else◌,
}
use kanzan.Prelude.Int.{ℤ, pos_part}
use mathlib.Core.Option
use kanzan.Sla.Clock.{Zones, Tenant}
use kanzan.Sla.Count.{Pause, elapsed_business_minutes}
use kanzan.Sla.Add.{add_business_time}
use kanzan.Tickets.Rows.{Status, Ticket, Event, Effect, ticket_activity, log_sla_change}
use kanzan.Tickets.Status.{pauses, is_same, changed}

-- A ticket with its pauses.
pub record Clock : Type 0 where
  pub ticket : Ticket
  pub rows : List Pause

abbrev pub is_open : Pause → Bool
is_open p = elim p.resumed_at [ none ↦ true | some t ↦ false ]

-- `SLAPause(…).save()`
unfoldable pub add_row : Pause → List Pause → List Pause
add_row p [] = p ∷ []
add_row p (q ∷ rows) =
    let later = add_row p rows in if leb q.paused_at p.paused_at then p ∷ q ∷ rows else q ∷ later

abbrev pub behind : Pause → Option (Pause × List Pause) → Option (Pause × List Pause)
behind q none = none
behind q (some (p, rows)) = some (p, q ∷ rows)

-- The latest open row, and the rows with this one closed.
unfoldable pub close_row : ℕ → List Pause → Option (Pause × List Pause)
close_row now [] = none
close_row now (p ∷ rows) =
    let later = behind p (close_row now rows) in
    if is_open p then some (p, record p { resumed_at = some now } ∷ rows) else later

abbrev pub is_missing : Option ℕ → Bool
is_missing none = true
is_missing (some t) = false

abbrev pub same_time : Option ℕ → Option ℕ → Bool
same_time none none = true
same_time none (some b) = false
same_time (some a) none = false
same_time (some a) (some b) = a == b

-- `log_sla_change`, with the deadlines before; nothing is written where they are the same
abbrev pub sla_change : Option ℕ → Option ℕ → Ticket → List Effect
sla_change old_response old_resolution t =
    if same_time old_response t.sla_first_response_due
      && same_time old_resolution t.sla_resolution_due
    then []
    else log_sla_change old_response old_resolution ∷ []

module _ (z : Zones) (tenant : Tenant) where
  -- The ticket with its deadlines moved.
  abbrev pub moved : ℕ → Ticket → Ticket
  moved duration t = record t {
    sla_first_response_due =
        Option.map (λ due. add_business_time z due duration tenant) t.sla_first_response_due;
    sla_resolution_due =
        Option.map (λ due. add_business_time z due duration tenant) t.sla_resolution_due;
  }

  -- The ticket after a pause of a duration.
  abbrev pub shifted_by : ℕ → Ticket → Ticket × List Effect
  shifted_by duration t =
      if duration == 0
      then (t, [])
      else if is_missing t.sla_first_response_due && is_missing t.sla_resolution_due
      then (t, [])
      else (
        moved duration t,
        sla_change t.sla_first_response_due t.sla_resolution_due (moved duration t),
      )

  abbrev pub shifted_after : Option ℤ → Ticket → Option (Ticket × List Effect)
  shifted_after none t = none
  shifted_after (some m) t = some (shifted_by (pos_part m) t)

  -- `_shift_sla_deadlines`
  unfoldable pub shift_sla_deadlines : ℕ → ℕ → Ticket → Option (Ticket × List Effect)
  shift_sla_deadlines pause_start pause_end t =
      shifted_after (elapsed_business_minutes z pause_start pause_end (some tenant)) t

  abbrev pub resumed : List Pause → Option (Ticket × List Effect) → Option (Clock × List Effect)
  resumed rows none = none
  resumed rows (some (t, effects)) = some (
    record { ticket = record t { sla_paused_at = none }; rows = rows },
    effects ++ (ticket_activity Event.sla_resumed ∷ []),
  )

  -- The end of the latest open pause, if there is one.
  abbrev pub resume_row : ℕ → Clock → Option (Pause × List Pause) → Option (Clock × List Effect)
  resume_row now s none = some (s, [])
  resume_row now s (some (p, rows)) = resumed rows (shift_sla_deadlines p.paused_at now s.ticket)

  -- `_resume_sla_pause`
  unfoldable pub resume_sla_pause : ℕ → Clock → Option (Clock × List Effect)
  resume_sla_pause now s = resume_row now s (close_row now s.rows)

  unfoldable pub pause_clock : ℕ → Clock → Clock × List Effect
  pause_clock now s = (
    record {
      ticket = record s.ticket { sla_paused_at = some now };
      rows = add_row (record { paused_at = now; resumed_at = none }) s.rows;
    },
    ticket_activity Event.sla_paused ∷ [],
  )

  -- `handle_sla_pause_on_status_change`, of a ticket that is saved with another status
  unfoldable pub handle_sla_pause : Bool → ℕ → Clock → Option (Clock × List Effect)
  unfolding pause_clock
  handle_sla_pause old_pauses now s =
      if pauses s.ticket.status
      then if old_pauses then some (s, []) else some (pause_clock now s)
      else if old_pauses
      then resume_sla_pause now s
      else some (s, [])

  -- A change of status with the signal of the save; what `change_ticket_status` logs beside it is
  -- in `Tickets.Status`.
  pub save_status : Status → Option ℕ → ℕ → Clock → Option (Clock × List Effect)
  save_status new_status actor now s =
      if is_same s.ticket.status new_status
      then some (s, [])
      else handle_sla_pause (pauses s.ticket.status) now
          (record s { ticket = changed s.ticket.status new_status actor now s.ticket })
