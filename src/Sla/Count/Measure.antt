-- ===== src/Sla/Count/Measure.antt =====
-- `_count_business_minutes` of apps/tickets/sla.py counts exactly the business instants.
use kanzan.Prelude.{
  ℕ, zero, suc, ◌+◌, ◌-◌, ◌<◌, min, ◌≡◌, some, ltb, leb, get, is_in, arith, Bool-cases,
  Option-cases, ap, sym, ◌∙◌, ltb→lt, inl, inr,
}
use kanzan.Sla.Clock.{date, weekday, next_midnight, Config, IsTimetable, Zones}
use kanzan.Sla.Clock.Open.{
  worked_hours, overlap, open_time, open_time-zero, open_time-split, open_time-day, get-IsTimetable,
}
use kanzan.Sla.Count.{count_day, count_loop, count_local, count_business_minutes}

module _ {Z : Type 0} (cfg : Config Z) (valid : IsTimetable cfg.days) where
  -- Cutting a stretch at the end of its day loses nothing of the day's window.
  overlap_clip :
      (c e : ℕ)
      → c < e
      → overlap (worked_hours cfg c) c c (min e (next_midnight c))
        ≡ overlap (worked_hours cfg c) c c e
  overlap_clip c e lt = elim (Bool-cases (is_in (date c) cfg.holiday_dates)) [
    | inl holiday ↦ rw holiday
    | inr no_holiday ↦ elim (Option-cases (get (weekday c) cfg.days)) [
      | inl off ↦ rw (no_holiday, off)
      | inr (h, e') ↦
          let b = get-IsTimetable (weekday c) cfg.days h valid e' in
          rw (no_holiday, e') (omega arith)
    ]
  ]

  count_day-overlap :
      (e c total : ℕ)
      → count_day cfg e c total ≡ (next_midnight c, total + overlap (worked_hours cfg c) c c e)
  unfolding count_day
  count_day-overlap e c total = ground arith

  -- A round of the loop adds the business instants up to the next midnight.
  count_day-open_time :
      (e c total : ℕ)
      → c < e
      → count_day cfg e c total
        ≡ (next_midnight c, total + open_time cfg c (min e (next_midnight c) - c))
  count_day-open_time e c total lt =
      let n : ℕ = min e (next_midnight c) - c in
      let last : c + n ≡ min e (next_midnight c) = omega arith in
      let window : open_time cfg c n ≡ overlap (worked_hours cfg c) c c (c + n) =
        open_time-day cfg c n (omega arith) in
      count_day-overlap e c total
      ∙ ap (λ k. (next_midnight c, total + k))
          (sym (window ∙ ap (overlap (worked_hours cfg c) c c) last ∙ overlap_clip c e lt))

  -- The day's part and the rest make up the stretch.
  open_time-next :
      (e c total : ℕ)
      → c < e
      → total
          + open_time cfg c (min e (next_midnight c) - c)
          + open_time cfg (next_midnight c) (e - next_midnight c)
        ≡ total + open_time cfg c (e - c)
  open_time-next e c total lt = elim (Bool-cases (leb e (next_midnight c))) [
    | inl one_day ↦
        let m : min e (next_midnight c) ≡ e = ground arith in
        let z : e - next_midnight c ≡ 0 = ground arith in
        rw (m, z) (rw (open_time-zero cfg (next_midnight c)) (omega arith))
    | inr more_days ↦
        let m : min e (next_midnight c) ≡ next_midnight c = ground arith in
        rw m (omega (arith, open_time-split cfg c (next_midnight c) e (omega arith) (ground arith)))
  ]

  count_loop-open_time :
      (rounds e c total : ℕ)
      → 0 < rounds
      → date e + 1 < rounds + date c
      → count_loop rounds cfg e c total ≡ some (total + open_time cfg c (e - c))
  unfolding count_loop
  count_loop-open_time zero e c total pos h = absurd (omega arith)
  count_loop-open_time (suc rounds) e c total pos h = elim (Bool-cases (ltb c e)) [
    | inl more ↦
        let lt = ltb→lt c e more in
        rw (more, count_loop, count_day-open_time e c total lt)
          (count_loop-open_time rounds e (next_midnight c)
              (total + open_time cfg c (min e (next_midnight c) - c)) (omega arith) (omega arith)
            ∙ ap some (open_time-next e c total lt))
    | inr done ↦
        let past : e - c ≡ 0 = ground arith in
        rw (done, count_loop, past, open_time-zero cfg c) (ap some (omega arith))
  ]

  pub count_local-open_time : (a b : ℕ) → count_local cfg a b ≡ some (open_time cfg a (b - a))
  unfolding count_local
  count_local-open_time a b = elim (Bool-cases (leb b a)) [
    | inl empty ↦
        let z : b - a ≡ 0 = ground arith in rw (empty, z) (ap some (sym (open_time-zero cfg a)))
    | inr forward ↦ rw forward (
        count_loop-open_time (date b + 2) b a 0 (omega arith) (ground arith)
        ∙ ap some (omega arith))
  ]

-- The count of `_count_business_minutes` ends, and is the number of business instants between the
-- two local times, for every configuration whose hours are times of day.
pub count_business_minutes-open_time :
    (z : Zones) (a b : ℕ) (cfg : Config z.Zone)
    → IsTimetable cfg.days
    → count_business_minutes z a b cfg
      ≡ some (open_time cfg (z.to_local cfg.tz a) (z.to_local cfg.tz b - z.to_local cfg.tz a))
unfolding count_business_minutes
count_business_minutes-open_time z a b cfg valid =
    count_local-open_time cfg valid (z.to_local cfg.tz a) (z.to_local cfg.tz b)
