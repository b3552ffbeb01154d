-- ===== src/Sla/Clock/Open.antt =====
-- The business instants of a configuration, and how many of them lie in a stretch of local time.
-- This describes independently what the loops of apps/tickets/sla.py compute window by window.
use kanzan.Prelude.{
  ℕ, zero, suc, ◌+◌, ◌-◌, ◌*◌, ◌≤◌, ◌<◌, min, max, ◌≡◌, refl, Bool, true, false, ◌&&◌, Option, none,
  some, ltb, leb, if◌then◌else◌, get, is_in, arith, ap, ◌∙◌, sym, [], ◌∷◌,
}
use native.Mathlib.Nat.{add_assoc, add-zero, add-suc}
use kanzan.Sla.Clock.{day, date, weekday, replace, Times, Hours, Config, IsTimetable}

-- The hours of a day that is worked: no holiday, and a weekday with hours.
abbrev pub worked_hours : {Z : Type 0} → Config Z → ℕ → Option Hours
worked_hours cfg t = if is_in (date t) cfg.holiday_dates then none else get (weekday t) cfg.days

-- The instant lies between the opening and the closing minute of a day that is worked.
abbrev pub within_hours : Option Hours → ℕ → Bool
within_hours none t = false
within_hours (some h) t = leb (replace t h.0) t && ltb t (replace t h.1)

abbrev pub is_open : {Z : Type 0} → Config Z → ℕ → Bool
is_open cfg t = within_hours (worked_hours cfg t) t

abbrev indicator : Bool → ℕ
indicator true = 1
indicator false = 0

-- The number of business instants among the `n` microseconds that follow `t`.
pub open_time : {Z : Type 0} → Config Z → ℕ → ℕ → ℕ
open_time cfg t zero = 0
open_time cfg t (suc n) = indicator (is_open cfg (t + n)) + open_time cfg t n

module _ {Z : Type 0} (cfg : Config Z) where
  pub open_time-zero : (t : ℕ) → open_time cfg t 0 ≡ 0
  unfolding open_time
  open_time-zero t = refl

  pub open_time-add :
      (t m n : ℕ) → open_time cfg t (m + n) ≡ open_time cfg t m + open_time cfg (t + m) n
  unfolding open_time
  open_time-add t m zero = rw add-zero (rw add-zero)
  open_time-add t m (suc n) =
      rw (add-suc, ← add_assoc t m n)
        (omega (arith, open_time-add t m n, ap (λ k. indicator (is_open cfg k)) (add_assoc t m n)))

  -- A stretch from `a` to `c` by way of `b`.
  pub open_time-split :
      (a b c : ℕ)
      → a ≤ b
      → b ≤ c
      → open_time cfg a (c - a) ≡ open_time cfg a (b - a) + open_time cfg b (c - b)
  open_time-split a b c h k =
      let e : c - a ≡ b - a + (c - b) = omega arith in
      let f : a + (b - a) ≡ b = omega arith in
      rw e (
        open_time-add a (b - a) (c - b)
        ∙ ap (λ x. open_time cfg a (b - a) + open_time cfg x (c - b)) f)

  pub open_time-le : (t n : ℕ) → open_time cfg t n ≤ n
  unfolding open_time
  open_time-le t zero = omega arith
  open_time-le t (suc n) = ground (arith, open_time-le t n)

-- The part of a day's hours between `a` and `b`, both on the day of `t`.
abbrev pub overlap : Option Hours → ℕ → ℕ → ℕ → ℕ
overlap none t a b = 0
overlap (some h) t a b = min b (replace t h.1) - max a (replace t h.0)

date_same : (t n : ℕ) → t + n < (date t + 1) * day → date (t + n) ≡ date t
date_same t n h = omega arith

replace_same : (s t τ : ℕ) → date s ≡ date t → replace s τ ≡ replace t τ
replace_same s t τ e = rw e

-- One more microsecond of a stretch counts if it lies in the window.
indicator-window :
    (lo hi t s : ℕ)
    → t ≤ s
    → indicator (leb lo s && ltb s hi) + (min s hi - max t lo) ≡ min (suc s) hi - max t lo
indicator-window lo hi t s h = ground arith

indicator-overlap :
    (o : Option Hours) (t s : ℕ)
    → date s ≡ date t
    → t ≤ s
    → indicator (within_hours o s) + overlap o t t s ≡ overlap o t t (suc s)
indicator-overlap none t s e f = omega arith
indicator-overlap (some h) t s e f =
    rw (replace_same s t h.0 e)
      (rw (replace_same s t h.1 e) (indicator-window (replace t h.0) (replace t h.1) t s f))

overlap-empty : (o : Option Hours) (t : ℕ) → overlap o t t t ≡ 0
overlap-empty none t = refl
overlap-empty (some h) t = omega arith

module _ {Z : Type 0} (cfg : Config Z) where
  pub worked_hours_same : (s t : ℕ) → date s ≡ date t → worked_hours cfg s ≡ worked_hours cfg t
  worked_hours_same s t e = rw e

  -- Within one day the business instants are those of the day's window.
  pub open_time-day :
      (t n : ℕ)
      → t + n ≤ (date t + 1) * day
      → open_time cfg t n ≡ overlap (worked_hours cfg t) t t (t + n)
  unfolding open_time
  open_time-day t zero h = rw add-zero (sym (overlap-empty (worked_hours cfg t) t))
  open_time-day t (suc n) h =
      let e : date (t + n) ≡ date t = date_same t n (omega arith) in
      rw (add-suc, worked_hours_same (t + n) t e, open_time-day t n (omega arith))
        (indicator-overlap (worked_hours cfg t) t (t + n) e (omega arith))

pub get-IsTimetable :
    (k : ℕ) (d : Times) (h : Hours) → IsTimetable d → get k d ≡ some h → (h.0 < day) × (h.1 < day)
get-IsTimetable k [] h v e = ground arith
get-IsTimetable k (x ∷ d) h v e = ground (arith, get-IsTimetable k d h v.1)

pub worked_hours-IsTimetable :
    {Z : Type 0} (cfg : Config Z) (t : ℕ) (h : Hours)
    → IsTimetable cfg.days
    → worked_hours cfg t ≡ some h
    → (h.0 < day) × (h.1 < day)
worked_hours-IsTimetable cfg t h v e = ground (arith, get-IsTimetable (weekday t) cfg.days h v)

-- Going from `a` on to `b` passes `n` business instants.
abbrev pub Passes : {Z : Type 0} → Config Z → ℕ → ℕ → ℕ → Type 0
Passes cfg a b n = (a ≤ b) × (open_time cfg a (b - a) ≡ n)

module _ {Z : Type 0} (cfg : Config Z) where
  pub Passes-refl : (a : ℕ) → Passes cfg a a 0
  Passes-refl a = let z : a - a ≡ 0 = omega arith in (omega arith, rw z (open_time-zero cfg a))

  pub Passes-trans : {a b c m n : ℕ} → Passes cfg a b m → Passes cfg b c n → Passes cfg a c (m + n)
  Passes-trans {a} {b} {c} p q = (omega arith, omega (arith, open_time-split cfg a b c p.0 q.0))

  pub Passes-eq : {a b m n : ℕ} → Passes cfg a b m → m ≡ n → Passes cfg a b n
  Passes-eq p e = (p.0, p.1 ∙ e)

  -- A stretch within one day.
  pub Passes-day :
      (a b : ℕ)
      → a ≤ b
      → b ≤ (date a + 1) * day
      → Passes cfg a b (overlap (worked_hours cfg a) a a b)
  Passes-day a b h k =
      let e : a + (b - a) ≡ b = omega arith in
      (h, open_time-day cfg a (b - a) (omega arith) ∙ ap (overlap (worked_hours cfg a) a a) e)
