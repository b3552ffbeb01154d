-- ===== src/Tickets/Pause/Resumes.antt =====
-- What a wait does to a ticket's clock: the pauses agree with the status, and leaving the wait moves
-- the deadlines by its business time (apps/tickets/signals.py).
use kanzan.Prelude.{
  ℕ, suc, ◌≡◌, refl, sym, ap, ◌∙◌, Bool, true, false, Option, none, some, List, [], ◌∷◌, ◌++◌, leb,
  arith, Bool-cases, inl, inr,
}
use kanzan.Sla.Clock.{Zones, Tenant, get_business_config}
use kanzan.Sla.Count.{Pause}
use kanzan.Sla.Count.Returns.{business_time, TimesOfDay}
use kanzan.Tickets.Rows.{Status, Event, Effect, ticket_activity}
use kanzan.Tickets.Status.{pauses, is_same, changed}
use kanzan.Tickets.Status.Consistent.{is_set, changed-sla_paused_at}
use kanzan.Tickets.Pause.{
  Clock, is_open, add_row, close_row, shifted_by, resume_row, resumed, resume_sla_pause,
  pause_clock, handle_sla_pause, save_status,
}
use kanzan.Tickets.Pause.Clocked.{
  open_rows, one, IsClocked, open_rows-add_row, close_row-cases, shift_sla_deadlines-business_time,
  shifted_by-status,
}

pub close_row-add_row :
    (now : ℕ) (p : Pause) (rows : List Pause)
    → is_open p ≡ true
    → open_rows rows ≡ 0
    → (rest : List Pause) × (close_row now (add_row p rows) ≡ some (p, rest)) × (open_rows rest ≡ 0)
unfolding add_row close_row
close_row-add_row now p [] on h =
    (record p { resumed_at = some now } ∷ [], rw on refl, ground arith)
close_row-add_row now p (q ∷ rows) on h = elim (Bool-cases (leb q.paused_at p.paused_at)) [
  | inl late ↦ rw late (record p { resumed_at = some now } ∷ q ∷ rows, rw on refl, ground arith)
  | inr early ↦
      let shut : is_open q ≡ false = ground arith in
      let (rest, here, none_open) = close_row-add_row now p rows on (ground arith) in
      rw early (q ∷ rest, rw (shut, here) refl, ground arith)
]

module _ (z : Zones) (tenant : Tenant) (valid : TimesOfDay z (get_business_config z tenant)) where
  -- The business time of a pause.
  abbrev pub lasted : ℕ → ℕ → ℕ
  lasted = business_time z (get_business_config z tenant)

  pub resume_row-at :
      (now : ℕ) (s : Clock) (p : Pause) (rest : List Pause)
      → close_row now s.rows ≡ some (p, rest)
      → let u = shifted_by z tenant (lasted p.paused_at now) s.ticket in
        resume_sla_pause z tenant now s ≡ resumed z tenant rest (some u)
  unfolding resume_sla_pause
  resume_row-at now s p rest e =
      ap (resume_row z tenant now s) e
      ∙ ap (resumed z tenant rest)
          (shift_sla_deadlines-business_time z tenant p.paused_at now s.ticket valid)

  handle_sla_pause-IsClocked :
      (now : ℕ) (old_pauses : Bool) (s : Clock)
      → open_rows s.rows ≡ one old_pauses
      → is_set s.ticket.sla_paused_at ≡ old_pauses
      → (r : Clock × List Effect) × (handle_sla_pause z tenant old_pauses now s ≡ some r)
        × IsClocked r.0
  unfolding handle_sla_pause
  handle_sla_pause-IsClocked now true s h k = elim (Bool-cases (pauses s.ticket.status)) [
    | inl still ↦ ((s, []), rw still refl, ground arith)
    | inr leaves ↦ elim (close_row-cases now s.rows) [
      | inl (gone, zero) ↦ ground arith
      | inr (p, rest, here, less) ↦
          let u = shifted_by z tenant (lasted p.paused_at now) s.ticket in
          let kept : u.0.status ≡ s.ticket.status =
            shifted_by-status z tenant (lasted p.paused_at now) s.ticket in
          let runs : pauses u.0.status ≡ false = ap pauses kept ∙ leaves in
          (
            (
              record { ticket = record u.0 { sla_paused_at = none }; rows = rest },
              u.1 ++ (ticket_activity Event.sla_resumed ∷ []),
            ),
            rw leaves (resume_row-at now s p rest here),
            record { open_when = rw runs (omega arith); stamped_when = sym runs },
          )
    ]
  ]
  handle_sla_pause-IsClocked now false s h k = elim (Bool-cases (pauses s.ticket.status)) [
    | inl enters ↦ (
      pause_clock z tenant now s,
      rw enters refl,
      record {
        open_when = rw enters (
            open_rows-add_row (record { paused_at = now; resumed_at = none }) s.rows refl
            ∙ ap suc h);
        stamped_when = sym enters;
      },
    )
    | inr stays ↦ ((s, []), rw stays refl, ground arith)
  ]

  -- Where the hours of the tenant are times of day, a change of status with its signal always
  -- returns, and it keeps the rows of pauses in step with the status: one row is open, and the
  -- ticket has the time of the pause, exactly while the status pauses the clock.
  pub save_status-IsClocked :
      (new_status : Status) (actor : Option ℕ) (now : ℕ) (s : Clock)
      → IsClocked s
      → (r : Clock × List Effect) × (save_status z tenant new_status actor now s ≡ some r)
        × IsClocked r.0
  unfolding save_status
  save_status-IsClocked new_status actor now s c =
      elim (Bool-cases (is_same s.ticket.status new_status)) [
        | inl same ↦ ((s, []), rw same refl, c)
        | inr other ↦
            let old = s.ticket.status in
            rw other (
              handle_sla_pause-IsClocked now (pauses old)
                (record s { ticket = changed old new_status actor now s.ticket }) c.open_when
                (ap is_set (changed-sla_paused_at old new_status actor now s.ticket)
                  ∙ c.stamped_when))
      ]
