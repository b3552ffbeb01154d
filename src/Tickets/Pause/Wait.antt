-- ===== src/Tickets/Pause/Wait.antt =====
-- A whole wait: a ticket enters a status that pauses the clock, and leaves it later
-- (apps/tickets/signals.py).
use kanzan.Prelude.{
  ℕ, ◌≡◌, refl, ap, ◌∙◌, true, false, Option, none, some, List, [], ◌∷◌, ◌++◌, ◌==◌,
}
use kanzan.Sla.Clock.{Zones, Tenant, get_business_config}
use kanzan.Sla.Count.{Pause}
use kanzan.Sla.Count.Returns.{TimesOfDay}
use kanzan.Tickets.Rows.{Status, Event, Effect, ticket_activity}
use kanzan.Tickets.Status.{pauses, is_same, changed}
use kanzan.Tickets.Status.Consistent.{changed-status, changed-dues}
use kanzan.Tickets.Pause.{
  Clock, add_row, shifted_by, resume_sla_pause, pause_clock, handle_sla_pause, save_status,
}
use kanzan.Tickets.Pause.Clocked.{open_rows, one, IsClocked, delayed, shifted_by-delayed}
use kanzan.Tickets.Pause.Resumes.{close_row-add_row, lasted, resume_row-at}

module _ (z : Zones) (tenant : Tenant) (valid : TimesOfDay z (get_business_config z tenant)) where
  pub save_status-enter :
      (waiting : Status) (actor : Option ℕ) (a : ℕ) (s : Clock)
      → pauses s.ticket.status ≡ false
      → waiting.pauses_sla ≡ true
      → is_same s.ticket.status waiting ≡ false
      → save_status z tenant waiting actor a s
        ≡ some (
            pause_clock z tenant a
              (record s { ticket = changed s.ticket.status waiting actor a s.ticket }))
  unfolding save_status handle_sla_pause
  save_status-enter waiting actor a s runs stops other =
      rw other (rw (runs, changed-status s.ticket.status waiting actor a s.ticket, stops) refl)

  pub save_status-leave :
      (next_status : Status) (actor : Option ℕ) (b : ℕ) (s : Clock)
      → pauses s.ticket.status ≡ true
      → next_status.pauses_sla ≡ false
      → is_same s.ticket.status next_status ≡ false
      → save_status z tenant next_status actor b s
        ≡ resume_sla_pause z tenant b
            (record s { ticket = changed s.ticket.status next_status actor b s.ticket })
  unfolding save_status handle_sla_pause
  save_status-leave next_status actor b s stops runs other =
      rw other (rw (stops, changed-status s.ticket.status next_status actor b s.ticket, runs) refl)

  -- Where the hours of the tenant are times of day, the clock runs and no row of a pause is open,
  -- a ticket that enters a status which pauses the clock, and then another status which does not,
  -- has both deadlines moved by the business time between the two changes; a deadline that is not
  -- set stays so, and where no business time passed the deadlines stay as they are.
  save_status_wait :
      (waiting next_status : Status) (actor actor' : Option ℕ) (a b : ℕ) (s : Clock)
      → IsClocked s
      → pauses s.ticket.status ≡ false
      → waiting.pauses_sla ≡ true
      → next_status.pauses_sla ≡ false
      → is_same s.ticket.status waiting ≡ false
      → (waiting.pk == next_status.pk) ≡ false
      → (paused : Clock × List Effect) × (done : Clock × List Effect) × (save_status z tenant
            waiting actor a s
          ≡ some paused)
        × (save_status z tenant next_status actor' b paused.0 ≡ some done)
        × (done.0.ticket.sla_first_response_due
            ≡ delayed z tenant (lasted z tenant valid a b) s.ticket.sla_first_response_due)
        × (done.0.ticket.sla_resolution_due
            ≡ delayed z tenant (lasted z tenant valid a b) s.ticket.sla_resolution_due)
  unfolding pause_clock
  save_status_wait waiting next_status actor actor' a b s c runs stops ends other other' =
      let old = s.ticket.status in
      let t = changed old waiting actor a s.ticket in
      let paused : Clock × List Effect = pause_clock z tenant a (record s { ticket = t }) in
      let at : t.status ≡ some waiting = changed-status old waiting actor a s.ticket in
      let v = changed t.status next_status actor' b (record t { sla_paused_at = some a }) in
      let n = lasted z tenant valid a b in
      let u = shifted_by z tenant n v in
      let p : Pause = record { paused_at = a; resumed_at = none } in
      let none_open : open_rows s.rows ≡ 0 = c.open_when ∙ ap one runs in
      let (rest, here, _) = close_row-add_row b p s.rows refl none_open in
      let dues = changed-dues old waiting actor a s.ticket in
      let dues' =
        changed-dues t.status next_status actor' b (record t { sla_paused_at = some a }) in
      let moved' = shifted_by-delayed z tenant n v in
      (
        paused,
        (
          record { ticket = record u.0 { sla_paused_at = none }; rows = rest },
          u.1 ++ (ticket_activity Event.sla_resumed ∷ []),
        ),
        save_status-enter waiting actor a s runs stops other,
        save_status-leave next_status actor' b paused.0 (ap pauses at ∙ stops) ends
              (ap (λ x. is_same x next_status) at ∙ other')
            ∙ resume_row-at z tenant valid b (record { ticket = v; rows = add_row p s.rows }) p rest
                here,
        moved'.0 ∙ ap (delayed z tenant n) (dues'.0 ∙ dues.0),
        moved'.1 ∙ ap (delayed z tenant n) (dues'.1 ∙ dues.1),
      )
