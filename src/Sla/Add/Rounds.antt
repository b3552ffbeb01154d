-- ===== src/Sla/Add/Rounds.antt =====
-- The bound on the rounds of `_add_business_minutes` (apps/tickets/sla.py) is enough: with hours of
-- some width on every worked day, the remaining time is used up, and counting back gives it again.
use kanzan.Prelude.{
  ℕ, zero, suc, ◌+◌, ◌-◌, ◌*◌, ◌/◌, ◌≤◌, ◌<◌, ◌≡◌, refl, some, leb, get, arith, [], ◌∷◌, Bool-cases,
  inl, inr, ap, ◌∙◌, ◌⊎◌, All, ◌==◌,
}
use kanzan.Sla.Clock.{
  minute, day, date, weekday, replace, next_midnight, Times, Hours, Config, IsTimetable,
}
use kanzan.Sla.Clock.Open.{worked_hours, worked_hours_same, worked_hours-IsTimetable}
use kanzan.Sla.Add.{find_day, next_business_day_start, arrive, use_hours, add_step, add_loop}
use kanzan.Sla.Add.Steps.{worked_hours-cases, find_day-suc, add_step-worked, add_step-Passes}

-- Every day's hours last at least `w`, counted from minute to minute.
abbrev pub LastsAtLeast : ℕ → Times → Type 0
LastsAtLeast w = All (λ e. e.1.0 / minute * minute + w ≤ e.1.1 / minute * minute)

-- Among 365 days in a row one is worked.
abbrev pub WorksEachYear : {Z : Type 0} → Config Z → Type 0
WorksEachYear cfg =
    (m : ℕ) → (k : ℕ) × (k < 365) × (h : Hours) × (worked_hours cfg (m + k * day) ≡ some h)

abbrev AtOpening : {Z : Type 0} → Config Z → ℕ → Type 0
AtOpening cfg c = (h : Hours) × (worked_hours cfg c ≡ some h) × (c ≡ replace c h.0)

get-LastsAtLeast :
    (w k : ℕ) (d : Times) (h : Hours)
    → LastsAtLeast w d
    → get k d ≡ some h
    → h.0 / minute * minute + w ≤ h.1 / minute * minute
get-LastsAtLeast w k [] h v e = ground arith
get-LastsAtLeast w k (x ∷ d) h v e = ground (arith, get-LastsAtLeast w k d h v.1)

module _ {Z : Type 0} (cfg : Config Z) (valid : IsTimetable cfg.days) where
  worked_hours-LastsAtLeast :
      (w t : ℕ) (h : Hours)
      → LastsAtLeast w cfg.days
      → worked_hours cfg t ≡ some h
      → h.0 / minute * minute + w ≤ h.1 / minute * minute
  worked_hours-LastsAtLeast w t h v e = ground (arith, get-LastsAtLeast w (weekday t) cfg.days h v)

  AtOpening-replace :
      (m : ℕ) (h : Hours) → worked_hours cfg m ≡ some h → AtOpening cfg (replace m h.0)
  AtOpening-replace m h e =
      let b = worked_hours-IsTimetable cfg m h valid e in
      let same : date (replace m h.0) ≡ date m = omega arith in
      (h, worked_hours_same cfg (replace m h.0) m same ∙ e, omega arith)

  -- The search for a day ends at the opening of one, if one is worked within its rounds.
  find_day-AtOpening :
      (rounds m k : ℕ) (h : Hours)
      → k < rounds
      → worked_hours cfg (m + k * day) ≡ some h
      → AtOpening cfg (find_day rounds cfg m)
  find_day-AtOpening zero m k h lt e = absurd (omega arith)
  find_day-AtOpening (suc rounds) m zero h lt e =
      let e' : worked_hours cfg m ≡ some h = ap (worked_hours cfg) (omega arith) ∙ e in
      rw (find_day-suc cfg valid rounds m, e') (AtOpening-replace m h e')
  find_day-AtOpening (suc rounds) m (suc k) h lt e = elim (worked_hours-cases cfg m) [
    | inr (h', e') ↦ rw (find_day-suc cfg valid rounds m, e') (AtOpening-replace m h' e')
    | inl off ↦
        let e' : worked_hours cfg (m + day + k * day) ≡ some h =
          ap (worked_hours cfg) (omega arith) ∙ e in
        rw (find_day-suc cfg valid rounds m, off)
          (find_day-AtOpening rounds (m + day) k h (omega arith) e')
  ]

  module _ (w : ℕ) (wide : LastsAtLeast w cfg.days) (yearly : WorksEachYear cfg) where
    next_business_day_start-AtOpening : (c : ℕ) → AtOpening cfg (next_business_day_start cfg c)
    unfolding next_business_day_start
    next_business_day_start-AtOpening c =
        let (k, lt, h, e) = yearly (next_midnight c) in
        find_day-AtOpening 365 (next_midnight c) k h lt e

    use_hours-AtOpening :
        (h : Hours) (c r : ℕ)
        → ((use_hours cfg h c r).1 ≡ 0) ⊎ AtOpening cfg (use_hours cfg h c r).0
    unfolding use_hours
    use_hours-AtOpening h c r =
        let from = arrive c (replace c h.0) in
        let next = next_business_day_start-AtOpening from in
        elim (Bool-cases (leb (replace c h.1) from)) [
          | inl late ↦ rw late (inr next)
          | inr early ↦ elim (Bool-cases (leb r (replace c h.1 - from))) [
            | inl fits ↦ rw (early, fits) (inl refl)
            | inr short ↦ rw (early, short) (inr next)
          ]
        ]

    -- A round ends the loop, or leads to the opening of a day.
    add_step-AtOpening : (c r : ℕ) → ((add_step cfg c r).1 ≡ 0) ⊎ AtOpening cfg (add_step cfg c r).0
    add_step-AtOpening c r = elim (worked_hours-cases cfg c) [
      | inl off ↦
          rw (add_step-worked cfg valid c r, off) (inr (next_business_day_start-AtOpening c))
      | inr (h, e) ↦ rw (add_step-worked cfg valid c r, e) (use_hours-AtOpening h c r)
    ]

    use_hours-le :
        (h : Hours) (c r : ℕ)
        → c ≡ replace c h.0
        → h.0 / minute * minute + w ≤ h.1 / minute * minute
        → ((use_hours cfg h c r).1 ≡ 0) ⊎ ((use_hours cfg h c r).1 + w ≤ r)
    unfolding use_hours
    use_hours-le h c r at long =
        elim (Bool-cases (leb (replace c h.1) (arrive c (replace c h.0)))) [
          | inl late ↦ rw late (inr (ground arith))
          | inr early ↦ elim (Bool-cases (leb r (replace c h.1 - arrive c (replace c h.0)))) [
            | inl fits ↦ rw (early, fits) (inl refl)
            | inr short ↦ rw (early, short) (inr (ground arith))
          ]
        ]

    -- A round at an opening ends the loop, or takes `w` off the remaining time.
    add_step-le :
        (c r : ℕ) → AtOpening cfg c → ((add_step cfg c r).1 ≡ 0) ⊎ ((add_step cfg c r).1 + w ≤ r)
    add_step-le c r (h, e, at) =
        rw (add_step-worked cfg valid c r, e)
          (use_hours-le h c r at (worked_hours-LastsAtLeast w c h wide e))

    add_loop-done : (rounds c : ℕ) → (add_loop rounds cfg c 0).1 ≡ 0
    unfolding add_loop
    add_loop-done zero c = refl
    add_loop-done (suc rounds) c = refl

    -- From an opening on, a round for each `w` of the remaining time is enough.
    add_loop-ends :
        (rounds c r : ℕ) → AtOpening cfg c → r ≤ rounds * w → (add_loop rounds cfg c r).1 ≡ 0
    unfolding add_loop
    add_loop-ends zero c r at h = omega arith
    add_loop-ends (suc rounds) c r at h = elim (Bool-cases (r == 0)) [
      | inl done ↦ rw (done, add_loop) (ground arith)
      | inr more ↦
          let (c', r') = add_step cfg c r in
          rw (more, add_loop)
            (elim (add_step-le c r at) [
              | inl z ↦ rw z (add_loop-done rounds c')
              | inr less ↦ elim (add_step-AtOpening c r) [
                | inl z ↦ rw z (add_loop-done rounds c')
                | inr at' ↦ add_loop-ends rounds c' r' at' (omega arith)
              ]
            ])
    ]

    -- One more round reaches an opening from anywhere.
    pub add_loop_ends_anywhere :
        (rounds c r : ℕ) → r ≤ rounds * w → (add_loop (suc rounds) cfg c r).1 ≡ 0
    unfolding add_loop
    add_loop_ends_anywhere rounds c r h = elim (Bool-cases (r == 0)) [
      | inl done ↦ rw (done, add_loop) (ground arith)
      | inr more ↦
          let (c', r') = add_step cfg c r in
          rw (more, add_loop)
            (elim (add_step-AtOpening c r) [
              | inl z ↦ rw z (add_loop-done rounds c')
              | inr at' ↦
                  add_loop-ends rounds c' r' at' (omega (arith, (add_step-Passes cfg valid c r).0))
            ])
    ]
