-- ===== src/Sla/Clock.antt =====
-- apps/tickets/sla.py and BusinessHours.get_day_config: dates, times of day and the configuration.
-- A local datetime is the number of microseconds since 0001-01-01T00:00, a Monday, as in
-- Python's proleptic calendar; a time of day is the microseconds since midnight.
pub mod Open
pub mod Configured
use kanzan.Prelude.{
  ℕ, suc, ◌+◌, ◌*◌, ◌/◌, ◌%◌, Bool, true, false, ◌&&◌, not, Option, none, some, List, [], ◌∷◌, map,
  String, ltb, leb, if◌then◌else◌, get, is_in, All, ◌<◌,
}

abbrev pub minute : ℕ
minute = 60000000

abbrev pub day : ℕ
day = 86400000000

-- `dt.date()`, as the number of days since 0001-01-01
abbrev pub date : ℕ → ℕ
date t = t / day

-- `dt.weekday()`: 0 is Monday
abbrev pub weekday : ℕ → ℕ
weekday t = date t % 7

-- `dt.time()`
abbrev pub time_of : ℕ → ℕ
time_of t = t % day

-- `t.replace(hour=τ.hour, minute=τ.minute, second=0, microsecond=0)`
abbrev pub replace : ℕ → ℕ → ℕ
replace t τ = date t * day + τ / minute * minute

-- `(t + timedelta(days=1)).replace(hour=0, minute=0, second=0, microsecond=0)`
abbrev pub next_midnight : ℕ → ℕ
next_midnight t = replace (t + day) 0

-- What zoneinfo and `datetime.astimezone` provide.
pub record Zones : Type 1 where
  pub Zone : Type 0
  pub utc : Zone
  -- `ZoneInfo(name)`; `none` when it raises
  pub zone_info : String → Option Zone
  -- `dt.astimezone(tz)` of a UTC datetime, and back
  pub to_local : Zone → ℕ → ℕ
  pub to_utc : Zone → ℕ → ℕ

-- An opening and a closing time of day.
abbrev pub Hours : Type 0
Hours = ℕ × ℕ

-- A dict from weekdays to hours.
abbrev pub Times : Type 0
Times = List (ℕ × Hours)

-- One entry of `BusinessHours.schedule`, its times parsed.
pub record DaySchedule : Type 0 where
  pub is_active : Bool
  pub open_time : ℕ
  pub close_time : ℕ

pub record BusinessHours : Type 0 where
  pub timezone : String
  pub schedule : List (ℕ × DaySchedule)

pub record TenantSettings : Type 0 where
  pub business_hours_start : ℕ
  pub business_hours_end : ℕ
  pub business_days : List ℕ
  pub timezone : String

pub record Tenant : Type 0 where
  pub business_hours : Option BusinessHours
  pub settings : Option TenantSettings
  -- the dates of the tenant's `PublicHoliday` rows
  pub holidays : List ℕ

-- The dict that `_get_business_config` returns.
pub record Config {ℓ} (Zone : Type ℓ) : Type ℓ where
  pub tz : Zone
  pub days : Times
  pub holiday_dates : List ℕ

-- `BusinessHours.get_day_config`; `none` is `(False, None, None)`
unfoldable pub get_day_config : BusinessHours → ℕ → Option Hours
get_day_config bh wd = elim (get wd bh.schedule) [
  | none ↦ none
  | some d ↦ if d.is_active then some (d.open_time, d.close_time) else none
]

-- one round of the loop over `range(7)`
unfoldable pub add_day : BusinessHours → ℕ → Times → Times
add_day bh wd rest = elim (get_day_config bh wd) [
  | none ↦ rest
  | some hours ↦ if ltb hours.0 hours.1 then (wd, hours) ∷ rest else rest
]

unfoldable pub active_days : BusinessHours → Times
active_days bh =
    add_day bh 0
      (add_day bh 1 (add_day bh 2 (add_day bh 3 (add_day bh 4 (add_day bh 5 (add_day bh 6 []))))))

module _ (z : Zones) where
  open z use {Zone, utc, zone_info}

  unfoldable pub get_tz : String → Zone
  get_tz name = elim (zone_info name) [ none ↦ utc | some tz ↦ tz ]

  unfoldable pub from_business_hours : List ℕ → BusinessHours → Option (Config Zone)
  from_business_hours holidays bh = elim (active_days bh) [
    | [] ↦ none
    | d ∷ ds ↦ some (record { tz = get_tz bh.timezone; days = d ∷ ds; holiday_dates = holidays })
  ]

  unfoldable pub from_settings : List ℕ → TenantSettings → Option (Config Zone)
  from_settings holidays s = elim s.business_days [
    | [] ↦ none
    | d ∷ ds ↦
        if leb s.business_hours_end s.business_hours_start
        then none
        else some (record {
          tz = get_tz s.timezone;
          days = map (λ k. (k, (s.business_hours_start, s.business_hours_end))) (d ∷ ds);
          holiday_dates = holidays;
        })
  ]

  -- `_get_business_config`; `none` is the 24/7 mode
  unfoldable pub get_business_config : Tenant → Option (Config Zone)
  get_business_config tenant = elim tenant.business_hours [
    | some bh ↦ from_business_hours tenant.holidays bh
    | none ↦ elim tenant.settings [ none ↦ none | some s ↦ from_settings tenant.holidays s ]
  ]

  -- `is_within_business_hours`
  unfoldable pub is_within_business_hours : ℕ → Tenant → Bool
  is_within_business_hours dt tenant = elim (get_business_config tenant) [
    | none ↦ true
    | some config ↦
        let local_dt = z.to_local config.tz dt in
        if is_in (date local_dt) config.holiday_dates
        then false
        else elim (get (weekday local_dt) config.days) [
          | none ↦ false
          | some hours ↦ leb hours.0 (time_of local_dt) && ltb (time_of local_dt) hours.1
        ]
  ]

-- Every entry is a time of day, as every `datetime.time` is.
abbrev pub IsTimetable : Times → Type 0
IsTimetable = All (λ e. (e.1.0 < day) × (e.1.1 < day))
