-- ===== src/Inbound/Reply.antt =====
-- apps/inbound_email/services.py: what the reply of a customer does to the clock and the status of
-- its ticket. The pause is ended before the status changes, and the change of the status, whose
-- signal ends a pause too, finds none. What the change logs is in `Tickets.Status`.
use kanzan.Prelude.{
  ℕ, ◌≡◌, refl, ap, ◌∙◌, Bool, true, false, Option, none, some, List, [], ◌∷◌, ◌++◌, ◌==◌,
  if◌then◌else◌, first, keep, arith, inl, inr, ◌>>=◌,
}
use text.Mathlib.Text.{◌==◌ as str_eq}
use kanzan.Sla.Clock.{Zones, Tenant, get_business_config}
use kanzan.Sla.Count.{Pause}
use kanzan.Sla.Count.Returns.{TimesOfDay}
use kanzan.Tickets.Rows.{Status, Event, Effect, ticket_activity}
use kanzan.Tickets.Status.{pauses, is_resolved, is_same, changed, resume_target}
use kanzan.Tickets.Status.Consistent.{changed-status, changed-dues}
use kanzan.Tickets.Status.Moves.{resume_target-pre_wait_status}
use kanzan.Tickets.Pause.{Clock, shifted_by, resume_row, resume_sla_pause, pause_clock, save_status}
use kanzan.Tickets.Pause.Clocked.{
  open_rows, one, IsClocked, close_row-cases, delayed, shifted_by-delayed, shifted_by-status,
  shifted_by-pre_wait_status,
}
use kanzan.Tickets.Pause.Resumes.{close_row-add_row, lasted, resume_row-at}
use kanzan.Tickets.Pause.Wait.{save_status-enter, save_status-leave}

module _ (z : Zones) (tenant : Tenant) (statuses : List Status) where
  abbrev pub saved_as : ℕ → ℕ → Clock → Option Status → Option (Clock × List Effect)
  saved_as actor now s none = some (s, [])
  saved_as actor now s (some new_status) = save_status z tenant new_status (some actor) now s

  -- `_reopen_resolved_ticket` and `resume_from_wait`
  unfoldable pub reply_status : ℕ → ℕ → Clock → Option (Clock × List Effect)
  reply_status actor now s =
      if is_resolved s.ticket.status
      then saved_as actor now s (first (keep (λ r. str_eq r.slug "open") statuses))
      else if pauses s.ticket.status
      then saved_as actor now s (resume_target statuses s.ticket)
      else some (s, [])

  -- The end of `_add_reply_to_ticket`, of an email from a customer or not.
  unfoldable pub reply : Bool → ℕ → ℕ → Clock → Option (Clock × List Effect)
  reply from_customer actor now s = do
    r ← if from_customer then resume_sla_pause z tenant now s else some (s, [])
    u ← reply_status actor now r.0
    some (u.0, r.1 ++ u.1)

  resume_sla_pause_idle :
      (now : ℕ) (s : Clock) → open_rows s.rows ≡ 0 → resume_sla_pause z tenant now s ≡ some (s, [])
  unfolding resume_sla_pause
  resume_sla_pause_idle now s h = elim (close_row-cases now s.rows) [
    | inl (gone, zero) ↦ ap (resume_row z tenant now s) gone
    | inr (p, rest, here, less) ↦ absurd (omega arith)
  ]

  reply_status-resume :
      (actor now : ℕ) (s : Clock) (target : Status)
      → is_resolved s.ticket.status ≡ false
      → pauses s.ticket.status ≡ true
      → resume_target statuses s.ticket ≡ some target
      → reply_status actor now s ≡ save_status z tenant target (some actor) now s
  unfolding reply_status
  reply_status-resume actor now s target a b c = rw (a, b, c) refl

module _ (z : Zones) (tenant : Tenant) (statuses : List Status)
    (valid : TimesOfDay z (get_business_config z tenant)) where
  -- Where the hours of the tenant are times of day, a customer's reply to a ticket that waits since
  -- a time returns the ticket to the status to resume, closes its pause, and moves both deadlines
  -- by the business time of the wait, once: the signal of the change of status does not move them
  -- again.
  pub reply_once :
      (waiting target : Status) (actor : Option ℕ) (system_user a b : ℕ) (s : Clock)
      → IsClocked s
      → pauses s.ticket.status ≡ false
      → waiting.pauses_sla ≡ true
      → is_resolved (some waiting) ≡ false
      → target.pauses_sla ≡ false
      → is_same s.ticket.status waiting ≡ false
      → (waiting.pk == target.pk) ≡ false
      → resume_target statuses (changed s.ticket.status waiting actor a s.ticket) ≡ some target
      → (paused : Clock × List Effect) × (done : Clock × List Effect) × (save_status z tenant
            waiting actor a s
          ≡ some paused)
        × (reply z tenant statuses true system_user b paused.0 ≡ some done)
        × (done.0.ticket.status ≡ some target)
        × (open_rows done.0.rows ≡ 0)
        × (done.0.ticket.sla_first_response_due
            ≡ delayed z tenant (lasted z tenant valid a b) s.ticket.sla_first_response_due)
        × (done.0.ticket.sla_resolution_due
            ≡ delayed z tenant (lasted z tenant valid a b) s.ticket.sla_resolution_due)
  unfolding pause_clock reply
  reply_once waiting target actor system_user a b s c runs stops unsolved ends other other'
        resumes =
      let old = s.ticket.status in
      let t = changed old waiting actor a s.ticket in
      let paused : Clock × List Effect = pause_clock z tenant a (record s { ticket = t }) in
      let at : t.status ≡ some waiting = changed-status old waiting actor a s.ticket in
      let n = lasted z tenant valid a b in
      let u = shifted_by z tenant n paused.0.ticket in
      let p : Pause = record { paused_at = a; resumed_at = none } in
      let none_open : open_rows s.rows ≡ 0 = c.open_when ∙ ap one runs in
      let (rest, here, shut) = close_row-add_row b p s.rows refl none_open in
      let first_end = resume_row-at z tenant valid b paused.0 p rest here in
      let mid : Clock = record { ticket = record u.0 { sla_paused_at = none }; rows = rest } in
      let kept : mid.ticket.status ≡ some waiting =
        shifted_by-status z tenant n paused.0.ticket ∙ at in
      let same_target =
        resume_target-pre_wait_status statuses mid.ticket t
          (shifted_by-pre_wait_status z tenant n paused.0.ticket)
        ∙ resumes in
      let v = changed mid.ticket.status target (some system_user) b mid.ticket in
      let done : Clock = record mid { ticket = v } in
      let second_end = resume_sla_pause_idle z tenant statuses b done shut in
      let back =
        reply_status-resume z tenant statuses system_user b mid target
          (ap is_resolved kept ∙ unsolved) (ap pauses kept ∙ stops) same_target
        ∙ save_status-leave z tenant valid target (some system_user) b mid (ap pauses kept ∙ stops)
            ends (ap (λ x. is_same x target) kept ∙ other')
        ∙ second_end in
      let dues = changed-dues old waiting actor a s.ticket in
      let dues' = changed-dues mid.ticket.status target (some system_user) b mid.ticket in
      let moved = shifted_by-delayed z tenant n paused.0.ticket in
      (
        paused,
        (done, (u.1 ++ (ticket_activity Event.sla_resumed ∷ [])) ++ []),
        save_status-enter z tenant valid waiting actor a s runs stops other,
        rw (first_end, back) refl,
        changed-status mid.ticket.status target (some system_user) b mid.ticket,
        shut,
        dues'.0 ∙ moved.0 ∙ ap (delayed z tenant n) dues.0,
        dues'.1 ∙ moved.1 ∙ ap (delayed z tenant n) dues.1,
      )
