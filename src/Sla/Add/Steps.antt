-- ===== src/Sla/Add/Steps.antt =====
-- One round of `_add_business_minutes` (apps/tickets/sla.py): what it takes off the remaining time
-- is the number of business instants that it passes.
use kanzan.Prelude.{
  ℕ, zero, suc, ◌+◌, ◌-◌, ◌*◌, ◌≤◌, ◌<◌, min, max, ◌≡◌, none, some, leb, arith, Bool-cases,
  Option-cases, inl, inr, ◌∙◌, ◌⊎◌, ◌==◌,
}
use native.Mathlib.Nat.{add-zero}
use kanzan.Sla.Clock.{day, date, replace, next_midnight, Hours, Config, IsTimetable}
use kanzan.Sla.Clock.Open.{
  worked_hours, worked_hours_same, overlap, worked_hours-IsTimetable, Passes, Passes-refl,
  Passes-trans, Passes-day, Passes-eq,
}
use kanzan.Sla.Add.{find_day, next_business_day_start, arrive, use_hours, add_step, add_loop}

-- What is left of a day's window after its opening is what is left until its close.
left_of_day :
    (c from open_t close_t : ℕ)
    → date from ≡ date c
    → replace c open_t ≤ from
    → close_t < day
    → 0 + (min (next_midnight from) (replace from close_t) - max from (replace from open_t))
      ≡ replace c close_t - from
left_of_day c from open_t close_t same opened b = omega arith

pub worked_hours-cases :
    {Z : Type 0} (cfg : Config Z) (t : ℕ)
    → (worked_hours cfg t ≡ none) ⊎ ((h : Hours) × (worked_hours cfg t ≡ some h))
worked_hours-cases cfg t = Option-cases (worked_hours cfg t)

module _ {Z : Type 0} (cfg : Config Z) (valid : IsTimetable cfg.days) where
  pub find_day-suc :
      (k c : ℕ)
      → find_day (suc k) cfg c
        ≡ elim (worked_hours cfg c) [ none ↦ find_day k cfg (c + day) | some h ↦ replace c h.0 ]
  unfolding find_day
  find_day-suc k c = ground arith

  pub add_step-worked :
      (c r : ℕ)
      → add_step cfg c r ≡ elim (worked_hours cfg c) [
        | none ↦ (next_business_day_start cfg c, r)
        | some h ↦ use_hours cfg h c r
      ]
  unfolding add_step
  add_step-worked c r = ground arith

  -- From the midnight `c` on, no business instant lies before the day that is found.
  find_day-Passes : (k c : ℕ) → c ≡ date c * day → Passes cfg c (find_day k cfg c) 0
  find_day-Passes zero c m = unfold find_day in Passes-refl cfg c
  find_day-Passes (suc k) c m = elim (worked_hours-cases cfg c) [
    | inl off ↦
        rw (find_day-suc k c, off)
          (Passes-trans cfg (rw off at (Passes-day cfg c (c + day) (omega arith) (omega arith)))
            (find_day-Passes k (c + day) (omega arith)))
    | inr (h, e) ↦
        let b = worked_hours-IsTimetable cfg c h valid e in
        let start = replace c h.0 in
        let none_before : overlap (some h) c c start ≡ 0 = omega arith in
        rw (find_day-suc k c, e)
          (rw none_before at (rw e at (Passes-day cfg c start (omega arith) (omega arith))))
  ]

  -- What is left of the day, and then nothing until the next business day.
  next_business_day_start-Passes :
      (c : ℕ)
      → Passes cfg c
          (next_business_day_start cfg c)
          (overlap (worked_hours cfg c) c c (next_midnight c))
  unfolding next_business_day_start
  next_business_day_start-Passes c =
      rw (← add-zero (overlap (worked_hours cfg c) c c (next_midnight c))) (
        Passes-trans cfg (Passes-day cfg c (next_midnight c) (omega arith) (omega arith))
          (find_day-Passes 365 (next_midnight c) (omega arith)))

  -- On arrival no business instant has passed yet.
  arrive-Passes :
      (h : Hours) (c : ℕ) → worked_hours cfg c ≡ some h → Passes cfg c (arrive c (replace c h.0)) 0
  arrive-Passes h c e =
      let b = worked_hours-IsTimetable cfg c h valid e in
      let from = arrive c (replace c h.0) in
      let in_day : (c ≤ from) × (from ≤ (date c + 1) * day) = ground arith in
      let none_yet : overlap (some h) c c from ≡ 0 = ground arith in
      rw none_yet at (rw e at (Passes-day cfg c from in_day.0 in_day.1))

  arrive-same : (h : Hours) (c : ℕ) → h.0 < day → date (arrive c (replace c h.0)) ≡ date c
  arrive-same h c b = ground arith

  -- Leaving after arrival passes what was left of the day's hours.
  leave-Passes :
      (h : Hours) (c : ℕ)
      → worked_hours cfg c ≡ some h
      → let from = arrive c (replace c h.0) in
        Passes cfg c (next_business_day_start cfg from) (replace c h.1 - from)
  leave-Passes h c e =
      let b = worked_hours-IsTimetable cfg c h valid e in
      let from = arrive c (replace c h.0) in
      let same : date from ≡ date c = arrive-same h c b.0 in
      let worked : worked_hours cfg from ≡ some h = worked_hours_same cfg from c same ∙ e in
      let opened : replace c h.0 ≤ from = ground arith in
      Passes-eq cfg
        (Passes-trans cfg (arrive-Passes h c e)
          (rw worked at (next_business_day_start-Passes from)))
        (left_of_day c from h.0 h.1 same opened b.1)

  -- Working on for `r`, no longer than the hours left, passes `r`.
  work-Passes :
      (h : Hours) (c r : ℕ)
      → worked_hours cfg c ≡ some h
      → let from = arrive c (replace c h.0) in r ≤ replace c h.1 - from → Passes cfg c (from + r) r
  work-Passes h c r e fits =
      let b = worked_hours-IsTimetable cfg c h valid e in
      let from = arrive c (replace c h.0) in
      let opened : (replace c h.0 ≤ from) × (c ≤ from) × (from ≤ (date c + 1) * day) =
        ground arith in
      let last : from + r ≤ (date c + 1) * day = omega arith in
      let passed : overlap (some h) c c (from + r) ≡ r = ground arith in
      Passes-eq cfg (rw e at (Passes-day cfg c (from + r) (omega arith) last)) passed

  use_hours-Passes :
      (h : Hours) (c r : ℕ)
      → worked_hours cfg c ≡ some h
      → let (c', r') = use_hours cfg h c r in (r' ≤ r) × Passes cfg c c' (r - r')
  unfolding use_hours
  use_hours-Passes h c r e =
      let from = arrive c (replace c h.0) in
      elim (Bool-cases (leb (replace c h.1) from)) [
        | inl late ↦ rw late (omega arith, Passes-eq cfg (leave-Passes h c e) (ground arith))
        | inr early ↦ elim (Bool-cases (leb r (replace c h.1 - from))) [
          | inl fits ↦
              rw (early, fits)
                (omega arith, Passes-eq cfg (work-Passes h c r e (ground arith)) (omega arith))
          | inr short ↦
              rw (early, short) (omega arith, Passes-eq cfg (leave-Passes h c e) (ground arith))
        ]
      ]

  -- What a round takes off the remaining time is what it passes of the business instants.
  pub add_step-Passes :
      (c r : ℕ) → let (c', r') = add_step cfg c r in (r' ≤ r) × Passes cfg c c' (r - r')
  add_step-Passes c r = elim (worked_hours-cases cfg c) [
    | inl off ↦
        rw (add_step-worked c r, off)
          (omega arith, Passes-eq cfg (rw off at (next_business_day_start-Passes c)) (omega arith))
    | inr (h, e) ↦ rw (add_step-worked c r, e) (use_hours-Passes h c r e)
  ]

  -- The loop, with any number of rounds.
  pub add_loop-Passes :
      (rounds c r : ℕ)
      → let (c', r') = add_loop rounds cfg c r in (r' ≤ r) × Passes cfg c c' (r - r')
  unfolding add_loop
  add_loop-Passes zero c r = (omega arith, Passes-eq cfg (Passes-refl cfg c) (omega arith))
  add_loop-Passes (suc rounds) c r = elim (Bool-cases (r == 0)) [
    | inl done ↦ rw (done, add_loop) (omega arith, Passes-eq cfg (Passes-refl cfg c) (omega arith))
    | inr more ↦
        let (c', r') = add_step cfg c r in
        let step = add_step-Passes c r in
        let rest = add_loop-Passes rounds c' r' in
        rw (more, add_loop)
          (omega arith, Passes-eq cfg (Passes-trans cfg step.1 rest.1) (omega arith))
  ]
