-- ===== src/Sla/Clock/Configured.antt =====
-- What `_get_business_config` of apps/tickets/sla.py returns.
use kanzan.Prelude.{
  ℕ, ◌%◌, ◌<◌, ◌≡◌, ◌≢◌, ◌&&◌, some, List, [], ◌∷◌, map, ltb, leb, get, is_in, All, arith,
  Bool-cases, Option-cases, inl, inr,
}
use kanzan.Sla.Clock.{
  minute, date, weekday, time_of, replace, Hours, Times, Config, Zones, BusinessHours,
  TenantSettings, Tenant, add_day, active_days, get_business_config, from_business_hours,
  from_settings, is_within_business_hours,
}
use kanzan.Sla.Clock.Open.{is_open}

-- Every day opens before it closes.
abbrev pub IsOrdered : Times → Type 0
IsOrdered = All (λ e. e.1.0 < e.1.1)

add_day-IsOrdered :
    (bh : BusinessHours) (wd : ℕ) (rest : Times) → IsOrdered rest → IsOrdered (add_day bh wd rest)
unfolding add_day
add_day-IsOrdered bh wd rest h = ground arith

active_days-IsOrdered : (bh : BusinessHours) → IsOrdered (active_days bh)
unfolding active_days
active_days-IsOrdered bh = add_day-IsOrdered bh 0 _ (
    add_day-IsOrdered bh 1 _ (
      add_day-IsOrdered bh 2 _ (
        add_day-IsOrdered bh 3 _
          (add_day-IsOrdered bh 4 _ (add_day-IsOrdered bh 5 _ (add_day-IsOrdered bh 6 [] tt))))))

same_hours-IsOrdered :
    (s : TenantSettings) (ds : List ℕ)
    → s.business_hours_start < s.business_hours_end
    → IsOrdered (map (λ k. (k, (s.business_hours_start, s.business_hours_end))) ds)
same_hours-IsOrdered s [] h = tt
same_hours-IsOrdered s (d ∷ ds) h = (h, same_hours-IsOrdered s ds h)

module _ (z : Zones) where
  from_business_hours-IsOrdered :
      (hs : List ℕ) (bh : BusinessHours) (cfg : Config z.Zone)
      → from_business_hours z hs bh ≡ some cfg
      → (cfg.days ≢ []) × IsOrdered cfg.days
  unfolding from_business_hours
  from_business_hours-IsOrdered hs bh cfg e = ground (arith, active_days-IsOrdered bh)

  from_settings-IsOrdered :
      (hs : List ℕ) (s : TenantSettings) (cfg : Config z.Zone)
      → from_settings z hs s ≡ some cfg
      → (cfg.days ≢ []) × IsOrdered cfg.days
  unfolding from_settings
  from_settings-IsOrdered hs s cfg e = ground (arith, same_hours-IsOrdered s s.business_days)

  -- A configuration that is returned has a day, and every day of it opens before it closes.
  get_business_config-IsOrdered :
      (tenant : Tenant) (cfg : Config z.Zone)
      → get_business_config z tenant ≡ some cfg
      → (cfg.days ≢ []) × IsOrdered cfg.days
  unfolding get_business_config
  get_business_config-IsOrdered tenant cfg e = elim (Option-cases tenant.business_hours) [
    | inr (bh, has) ↦ from_business_hours-IsOrdered tenant.holidays bh cfg (rw has at e)
    | inl no_hours ↦ elim (Option-cases tenant.settings) [
      | inr (s, has) ↦ from_settings-IsOrdered tenant.holidays s cfg (rw (no_hours, has) at e)
      | inl no_settings ↦ cc (rw (no_hours, no_settings) at e)
    ]
  ]

-- Hours that are given in whole minutes.
abbrev pub IsWholeMinutes : Times → Type 0
IsWholeMinutes = All (λ e. (e.1.0 % minute ≡ 0) × (e.1.1 % minute ≡ 0))

get-IsWholeMinutes :
    (k : ℕ) (d : Times) (h : Hours)
    → IsWholeMinutes d
    → get k d ≡ some h
    → (h.0 % minute ≡ 0) × (h.1 % minute ≡ 0)
get-IsWholeMinutes k [] h v e = ground arith
get-IsWholeMinutes k (x ∷ d) h v e = ground (arith, get-IsWholeMinutes k d h v.1)

whole_window :
    (t : ℕ) (h : Hours)
    → (h.0 % minute ≡ 0) × (h.1 % minute ≡ 0)
    → (leb h.0 (time_of t) && ltb (time_of t) h.1)
      ≡ (leb (replace t h.0) t && ltb t (replace t h.1))
whole_window t h whole = ground arith

-- For hours in whole minutes, the instants that `is_within_business_hours` accepts are those that
-- the minute counts are made of.
is_within_business_hours-is_open :
    (z : Zones) (dt : ℕ) (tenant : Tenant) (cfg : Config z.Zone)
    → get_business_config z tenant ≡ some cfg
    → IsWholeMinutes cfg.days
    → is_within_business_hours z dt tenant ≡ is_open cfg (z.to_local cfg.tz dt)
unfolding is_within_business_hours
is_within_business_hours-is_open z dt tenant cfg e whole =
    let t = z.to_local cfg.tz dt in
    rw (e, is_within_business_hours)
      (elim (Bool-cases (is_in (date t) cfg.holiday_dates)) [
        | inl holiday ↦ rw holiday
        | inr no_holiday ↦ elim (Option-cases (get (weekday t) cfg.days)) [
          | inl off ↦ rw (no_holiday, off)
          | inr (h, has) ↦
              rw (no_holiday, has)
                (whole_window t h (get-IsWholeMinutes (weekday t) cfg.days h whole has))
        ]
      ])
