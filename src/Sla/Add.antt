-- ===== src/Sla/Add.antt =====
-- apps/tickets/sla.py: `_next_business_day_start`, `_add_business_minutes` and the deadlines that
-- are built on them. Minutes are kept as microseconds.
pub mod Steps
pub mod Rounds
pub mod RoundTrip
pub mod Elapsed
use kanzan.Prelude.{
  ℕ, zero, suc, ◌+◌, ◌-◌, ◌*◌, ◌≤◌, ◌<◌, Bool, true, false, Option, none, some, List, [], ◌∷◌, ltb,
  leb, ◌==◌, if◌then◌else◌, get, is_in,
}
use kanzan.Sla.Clock.{
  minute, day, date, weekday, replace, next_midnight, Hours, Config, Zones, Tenant,
  get_business_config,
}

-- The loop of `_next_business_day_start` over its candidates.
pub find_day : {Z : Type 0} → ℕ → Config Z → ℕ → ℕ
find_day zero cfg candidate = candidate
find_day (suc rounds) cfg candidate =
    let later = find_day rounds cfg (candidate + day) in
    if is_in (date candidate) cfg.holiday_dates
    then later
    else elim (get (weekday candidate) cfg.days) [
      | none ↦ later
      | some hours ↦ replace candidate hours.0
    ]

-- `_next_business_day_start`
pub next_business_day_start : {Z : Type 0} → Config Z → ℕ → ℕ
next_business_day_start cfg current = find_day 365 cfg (next_midnight current)

-- `if current < day_start: current = day_start`
abbrev pub arrive : ℕ → ℕ → ℕ
arrive current day_start = if ltb current day_start then day_start else current

-- The body of the loop of `_add_business_minutes` from `day_start` on.
pub use_hours : {Z : Type 0} → Config Z → Hours → ℕ → ℕ → ℕ × ℕ
use_hours cfg hours current remaining =
    let day_end = replace current hours.1 in
    let from = arrive current (replace current hours.0) in
    let available = day_end - from in
    if leb day_end from
    then (next_business_day_start cfg from, remaining)
    else if leb remaining available
    then (from + remaining, 0)
    else (next_business_day_start cfg from, remaining - available)

-- The body of the loop, over the variables `current` and `remaining`.
pub add_step : {Z : Type 0} → Config Z → ℕ → ℕ → ℕ × ℕ
unfolding use_hours
add_step cfg current remaining =
    if is_in (date current) cfg.holiday_dates
    then (next_business_day_start cfg current, remaining)
    else elim (get (weekday current) cfg.days) [
      | none ↦ (next_business_day_start cfg current, remaining)
      | some hours ↦ use_hours cfg hours current remaining
    ]

-- The loop: it ends when nothing remains, or after the given rounds.
pub add_loop : {Z : Type 0} → ℕ → Config Z → ℕ → ℕ → ℕ × ℕ
add_loop zero cfg current remaining = (current, remaining)
add_loop (suc rounds) cfg current remaining = elim (remaining == 0) [
  | true ↦ (current, remaining)
  | false ↦
      add_loop rounds cfg (add_step cfg current remaining).0 (add_step cfg current remaining).1
]

-- The bound of the loop, `365 * 24`.
abbrev pub max_rounds : ℕ
max_rounds = 365 * 24

-- The part of `_add_business_minutes` between the two conversions: the local time that the loop
-- ends at, and what then remains, which the source drops.
pub add_local : {Z : Type 0} → Config Z → ℕ → ℕ → ℕ × ℕ
add_local cfg start_local minutes = add_loop max_rounds cfg start_local (minutes * minute)

module _ (z : Zones) where
  open z use {Zone, to_local, to_utc, utc}

  pub add_business_minutes_in : ℕ → ℕ → Config Zone → ℕ
  add_business_minutes_in start_utc minutes cfg =
      to_utc cfg.tz (add_local cfg (to_local cfg.tz start_utc) minutes).0

  -- `add_business_minutes`
  pub add_business_minutes : ℕ → ℕ → Tenant → ℕ
  add_business_minutes start_utc minutes tenant = elim (get_business_config z tenant) [
    | none ↦ start_utc + minutes * minute
    | some cfg ↦ add_business_minutes_in start_utc minutes cfg
  ]

  -- `sla_deadline_utc`, whose settings `_resolve_tenant` has resolved to a tenant
  pub sla_deadline_utc : ℕ → ℕ → Option Tenant → Bool → ℕ
  sla_deadline_utc start_utc sla_minutes none business_hours_only = start_utc + sla_minutes * minute
  sla_deadline_utc start_utc sla_minutes (some tenant) business_hours_only =
      if business_hours_only
      then add_business_minutes start_utc sla_minutes tenant
      else start_utc + sla_minutes * minute

  abbrev pub add_time : Option (Config Zone) → ℕ → ℕ → ℕ
  add_time none start_utc duration = start_utc + duration
  add_time (some cfg) start_utc duration =
      to_utc cfg.tz (add_loop max_rounds cfg (to_local cfg.tz start_utc) duration).0

  -- `add_business_minutes` for a duration that need not be whole minutes
  unfoldable pub add_business_time : ℕ → ℕ → Tenant → ℕ
  add_business_time start_utc duration tenant =
      add_time (get_business_config z tenant) start_utc duration
