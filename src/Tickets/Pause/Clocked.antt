-- ===== src/Tickets/Pause/Clocked.antt =====
-- The rows of pauses agree with the status, and a pause moves the deadlines by its business time
-- (apps/tickets/signals.py).
use kanzan.Prelude.{
  ℕ, suc, ◌≡◌, ◌⊎◌, refl, ap, ◌∙◌, Bool, true, false, Option, none, some, List, [], ◌∷◌, ◌==◌,
  if◌then◌else◌, length, keep, arith, Bool-cases, inl, inr,
}
use mathlib.Core.Option
use kanzan.Sla.Clock.{Zones, Tenant, get_business_config}
use kanzan.Sla.Count.{Pause, elapsed_business_minutes}
use kanzan.Sla.Count.Returns.{business_time, TimesOfDay, elapsed-business_time}
use kanzan.Sla.Add.{add_business_time}
use kanzan.Tickets.Rows.{Ticket}
use kanzan.Tickets.Status.{pauses}
use kanzan.Tickets.Status.Consistent.{is_set}
use kanzan.Tickets.Pause.{
  Clock, is_open, add_row, close_row, shifted_by, shifted_after, shift_sla_deadlines,
}

abbrev pub open_rows : List Pause → ℕ
open_rows rows = length (keep is_open rows)

abbrev pub one : Bool → ℕ
one true = 1
one false = 0

-- One row is open while the status pauses the clock, and none otherwise; then the ticket has the
-- time of the pause.
pub record IsClocked (s : Clock) : Type 0 where
  pub open_when : open_rows s.rows ≡ one (pauses s.ticket.status)
  pub stamped_when : is_set s.ticket.sla_paused_at ≡ pauses s.ticket.status

pub open_rows-add_row :
    (p : Pause) (rows : List Pause)
    → is_open p ≡ true
    → open_rows (add_row p rows) ≡ suc (open_rows rows)
unfolding add_row
open_rows-add_row p [] h = ground arith
open_rows-add_row p (q ∷ rows) h = ground (arith, open_rows-add_row p rows h)

pub close_row-cases :
    (now : ℕ) (rows : List Pause)
    → ((close_row now rows ≡ none) × (open_rows rows ≡ 0))
      ⊎ ((p : Pause) × (rest : List Pause) × (close_row now rows ≡ some (p, rest))
          × (suc (open_rows rest) ≡ open_rows rows))
unfolding close_row
close_row-cases now [] = inl (refl, refl)
close_row-cases now (p ∷ rows) = elim (Bool-cases (is_open p)) [
  | inl on ↦ inr (p, record p { resumed_at = some now } ∷ rows, rw on refl, ground arith)
  | inr off ↦ elim (close_row-cases now rows) [
    | inl (gone, zero) ↦ inl (rw (off, gone) refl, ground arith)
    | inr (q, rest, here, less) ↦ inr (q, p ∷ rest, rw (off, here) refl, ground arith)
  ]
]

module _ (z : Zones) (tenant : Tenant) where
  pub shift_sla_deadlines-business_time :
      (a b : ℕ) (t : Ticket)
      → TimesOfDay z (get_business_config z tenant)
      → shift_sla_deadlines z tenant a b t
        ≡ some (shifted_by z tenant (business_time z (get_business_config z tenant) a b) t)
  unfolding shift_sla_deadlines elapsed_business_minutes
  shift_sla_deadlines-business_time a b t h =
      let (r, e, p) = elapsed-business_time z (get_business_config z tenant) a b h in
      ap (λ m. shifted_after z tenant m t) e ∙ ap (λ n. some (shifted_by z tenant n t)) p

  -- A deadline after a pause of a duration.
  abbrev pub delayed : ℕ → Option ℕ → Option ℕ
  delayed n due = if n == 0 then due else Option.map (λ d. add_business_time z d n tenant) due

  pub shifted_by-delayed :
      (n : ℕ) (t : Ticket)
      → ((shifted_by z tenant n t).0.sla_first_response_due ≡ delayed n t.sla_first_response_due)
        × ((shifted_by z tenant n t).0.sla_resolution_due ≡ delayed n t.sla_resolution_due)
  shifted_by-delayed n t = (ground arith, ground arith)

  pub shifted_by-status : (n : ℕ) (t : Ticket) → (shifted_by z tenant n t).0.status ≡ t.status
  shifted_by-status n t = ground arith

  pub shifted_by-pre_wait_status :
      (n : ℕ) (t : Ticket) → (shifted_by z tenant n t).0.pre_wait_status ≡ t.pre_wait_status
  shifted_by-pre_wait_status n t = ground arith
