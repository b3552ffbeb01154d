-- ===== src/Sla/Count.antt =====
-- apps/tickets/sla.py: `_count_business_minutes` and what is built on it: elapsed time, pauses and
-- the effective elapsed time of a ticket. Minutes are kept as microseconds, so the division by 60
-- that turns seconds into minutes is left out, and with it the rounding of floats.
pub mod Measure
pub mod Pauses
pub mod Returns
use kanzan.Prelude.{
  ℕ, zero, suc, ◌+◌, ◌-◌, ◌≤◌, ◌<◌, min, max, Bool, true, false, Option, none, some, List, [], ◌∷◌,
  ltb, leb, if◌then◌else◌, get, is_in, keep, ◌≡◌, ◌>>=◌,
}
use kanzan.Prelude.Int.{ℤ, pos, pos_part, sub_ℕ, ◌+ℤ◌, ◌-ℤ◌}
use mathlib.Core.Option
use kanzan.Sla.Clock.{
  date, weekday, replace, next_midnight, Hours, Config, Zones, Tenant, get_business_config,
}

-- The body of the `while` loop, over the variables `current` and `total_minutes`.
count_day : {Z : Type 0} → Config Z → ℕ → ℕ → ℕ → ℕ × ℕ
count_day cfg end_local current total =
    if is_in (date current) cfg.holiday_dates
    then (next_midnight current, total)
    else elim (get (weekday current) cfg.days) [
      | none ↦ (next_midnight current, total)
      | some hours ↦
          let window_start = max current (replace current hours.0) in
          let window_end = min end_local (replace current hours.1) in
          (
            next_midnight current,
            if ltb window_start window_end then total + (window_end - window_start) else total,
          )
    ]

-- The `while` loop; `none` when the rounds run out.
count_loop : {Z : Type 0} → ℕ → Config Z → ℕ → ℕ → ℕ → Option ℕ
count_loop zero cfg end_local current total = none
count_loop (suc rounds) cfg end_local current total = elim (ltb current end_local) [
  | false ↦ some total
  | true ↦
      count_loop rounds cfg end_local (count_day cfg end_local current total).0
        (count_day cfg end_local current total).1
]

-- The part of `_count_business_minutes` that follows the conversion to local time.
pub count_local : {Z : Type 0} → Config Z → ℕ → ℕ → Option ℕ
unfolding count_loop count_day
count_local cfg start_local end_local =
    if leb end_local start_local
    then some 0
    else count_loop (date end_local + 2) cfg end_local start_local 0

-- A row of `SLAPause`.
pub record Pause : Type 0 where
  pub paused_at : ℕ
  pub resumed_at : Option ℕ

-- The fields of `SLAPolicy` that the arithmetic reads.
pub record Policy : Type 0 where
  pub first_response_minutes : ℕ
  pub resolution_minutes : ℕ
  pub business_hours_only : Bool

-- `pause.resumed_at or now`
abbrev pub pause_end : ℕ → Pause → ℕ
pause_end now p = elim p.resumed_at [ none ↦ now | some t ↦ t ]

-- `pauses.filter(paused_at__gte=start_utc)`
abbrev pub since : ℕ → List Pause → List Pause
since start_utc pauses = keep (λ p. leb start_utc p.paused_at) pauses

module _ (z : Zones) where
  open z use {Zone, to_local}

  unfoldable pub count_business_minutes : ℕ → ℕ → Config Zone → Option ℕ
  count_business_minutes start_utc end_utc cfg =
      count_local cfg (to_local cfg.tz start_utc) (to_local cfg.tz end_utc)

  -- Business time where there is a configuration, wall-clock time where there is none.
  unfoldable pub elapsed : Option (Config Zone) → ℕ → ℕ → Option ℤ
  elapsed none start_utc end_utc = some (sub_ℕ end_utc start_utc)
  elapsed (some cfg) start_utc end_utc =
      Option.map pos (count_business_minutes start_utc end_utc cfg)

  -- `elapsed_business_minutes`, whose argument `_resolve_tenant` has resolved
  unfoldable pub elapsed_business_minutes : ℕ → ℕ → Option Tenant → Option ℤ
  elapsed_business_minutes start_utc end_utc none = some (sub_ℕ end_utc start_utc)
  elapsed_business_minutes start_utc end_utc (some tenant) =
      elapsed (get_business_config z tenant) start_utc end_utc

  -- the `for` loop of `get_total_pause_minutes`
  sum_pauses : Option (Config Zone) → ℕ → List Pause → ℤ → Option ℤ
  sum_pauses cfg now [] total = some total
  sum_pauses cfg now (p ∷ ps) total = elim (elapsed cfg p.paused_at (pause_end now p)) [
    | none ↦ none
    | some t ↦ sum_pauses cfg now ps (total +ℤ t)
  ]

  -- `get_total_pause_minutes`, given the start and the end
  unfoldable pub get_total_pause_minutes : List Pause → ℕ → ℕ → Option (Config Zone) → Option ℤ
  unfolding sum_pauses
  get_total_pause_minutes pauses start_utc now cfg =
      sum_pauses cfg now (since start_utc pauses) (pos 0)

  -- `get_effective_elapsed_minutes` of a ticket by its creation time and its pauses
  unfoldable pub get_effective_elapsed_minutes : ℕ → List Pause → Policy → Tenant → ℕ → Option ℕ
  unfolding get_total_pause_minutes
  get_effective_elapsed_minutes created_at pauses policy tenant now = do
    let config = if policy.business_hours_only then get_business_config z tenant else none
    raw_elapsed ← elapsed config created_at now
    pause_minutes ← get_total_pause_minutes pauses created_at now config
    some (pos_part (raw_elapsed -ℤ pause_minutes))
