-- ===== src/Sla/Count/Returns.antt =====
-- Elapsed time with and without business hours, and that it is always computed within the rounds of
-- the loop (apps/tickets/sla.py).
use kanzan.Prelude.{
  ℕ, ◌-◌, ◌≡◌, refl, Bool, true, false, Option, none, some, List, [], ◌∷◌, if◌then◌else◌, arith,
}
use kanzan.Prelude.Int.{ℤ, pos, pos_part, sub_ℕ, ◌+ℤ◌, ◌-ℤ◌}
use kanzan.Sla.Clock.{Zones, Tenant, Config, IsTimetable, get_business_config}
use kanzan.Sla.Clock.Open.{open_time}
use kanzan.Sla.Count.{
  Pause, Policy, pause_end, since, elapsed, sum_pauses, get_total_pause_minutes,
  get_effective_elapsed_minutes,
}
use kanzan.Sla.Count.Measure.{count_business_minutes-open_time}

module _ (z : Zones) where
  open z use {Zone, to_local}

  -- The business instants between two times, or all of them in the 24/7 mode.
  abbrev pub business_time : Option (Config Zone) → ℕ → ℕ → ℕ
  business_time none a b = b - a
  business_time (some cfg) a b =
      open_time cfg (to_local cfg.tz a) (to_local cfg.tz b - to_local cfg.tz a)

  -- The hours of the configuration are times of day.
  abbrev pub TimesOfDay : Option (Config Zone) → Type 0
  TimesOfDay none = Unit {0}
  TimesOfDay (some cfg) = IsTimetable cfg.days

  pub elapsed-business_time :
      (c : Option (Config Zone)) (a b : ℕ)
      → TimesOfDay c
      → (r : ℤ) × (elapsed z c a b ≡ some r) × (pos_part r ≡ business_time c a b)
  unfolding elapsed
  elapsed-business_time none a b h = (sub_ℕ b a, refl, ground arith)
  elapsed-business_time (some cfg) a b h = (
    pos (business_time (some cfg) a b),
    rw (count_business_minutes-open_time z a b cfg h) refl,
    refl,
  )

  sum_pauses_returns :
      (c : Option (Config Zone)) (now : ℕ) (pauses : List Pause) (total : ℤ)
      → TimesOfDay c
      → (r : ℤ) × (sum_pauses z c now pauses total ≡ some r)
  unfolding sum_pauses
  sum_pauses_returns c now [] total h = (total, refl)
  sum_pauses_returns c now (p ∷ ps) total h =
      let (t, e, _) = elapsed-business_time c p.paused_at (pause_end now p) h in
      rw (e, sum_pauses) (sum_pauses_returns c now ps (total +ℤ t) h)

  config_of :
      (only : Bool) (tenant : Tenant)
      → TimesOfDay (get_business_config z tenant)
      → TimesOfDay (if only then get_business_config z tenant else none)
  config_of true tenant h = h
  config_of false tenant h = tt

  -- The effective elapsed time of a ticket is always computed.
  pub get_effective_elapsed_minutes_returns :
      (created_at : ℕ) (pauses : List Pause) (policy : Policy) (tenant : Tenant) (now : ℕ)
      → TimesOfDay (get_business_config z tenant)
      → (m : ℕ) × (get_effective_elapsed_minutes z created_at pauses policy tenant now ≡ some m)
  unfolding get_effective_elapsed_minutes get_total_pause_minutes
  get_effective_elapsed_minutes_returns created_at pauses policy tenant now valid =
      let c = if policy.business_hours_only then get_business_config z tenant else none in
      let h = config_of policy.business_hours_only tenant valid in
      let (raw, e, _) = elapsed-business_time c created_at now h in
      let (paused, e') = sum_pauses_returns c now (since created_at pauses) (pos 0) h in
      (pos_part (raw -ℤ paused), rw (e, e') refl)
