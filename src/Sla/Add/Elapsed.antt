-- ===== src/Sla/Add/Elapsed.antt =====
-- `add_business_minutes` against `elapsed_business_minutes` (apps/tickets/sla.py), with and without
-- business hours.
use kanzan.Prelude.{ℕ, ◌*◌, ◌≤◌, ◌≡◌, Option, none, some, arith, ap, ◌∙◌}
use kanzan.Prelude.Int.{pos}
use mathlib.Core.Option
use kanzan.Sla.Clock.{Config, IsTimetable, Zones, Tenant, get_business_config}
use kanzan.Sla.Count.{count_local, elapsed, elapsed_business_minutes, count_business_minutes}
use kanzan.Sla.Count.Measure.{count_local-open_time}
use kanzan.Sla.Add.{add_loop, max_rounds, add_time, add_business_time}
use kanzan.Sla.Add.Steps.{add_loop-Passes}
use kanzan.Sla.Add.Rounds.{LastsAtLeast, WorksEachYear, add_loop_ends_anywhere}

module _ (z : Zones) where
  open z use {Zone, to_local, to_utc}

  -- The business hours leave room for a duration within the rounds of the loop: every worked day
  -- lasts at least `w`, one of any 365 days is worked, and the duration is 8759 such days' work at
  -- most. Without business hours every duration fits.
  abbrev pub HasRoom : ℕ → Option (Config Zone) → Type 0
  HasRoom n none = Unit {0}
  HasRoom n (some cfg) =
      (w : ℕ) × IsTimetable cfg.days × LastsAtLeast w cfg.days × WorksEachYear cfg × (n ≤ 8759 * w)

  -- The local time that the loop ends at converts to UTC and back unchanged.
  abbrev pub ConvertsBack : ℕ → ℕ → Option (Config Zone) → Type 0
  ConvertsBack a n none = Unit {0}
  ConvertsBack a n (some cfg) =
      let l = (add_loop max_rounds cfg (to_local cfg.tz a) n).0 in
      to_local cfg.tz (to_utc cfg.tz l) ≡ l

  count_local-add_loop :
      (cfg : Config Zone) (c n : ℕ)
      → HasRoom n (some cfg)
      → count_local cfg c (add_loop max_rounds cfg c n).0 ≡ some n
  count_local-add_loop cfg c n (w, valid, wide, yearly, enough) =
      let p = add_loop-Passes cfg valid max_rounds c n in
      let over = add_loop_ends_anywhere cfg valid w wide yearly 8759 c n enough in
      count_local-open_time cfg valid c (add_loop max_rounds cfg c n).0
      ∙ ap some p.1.1
      ∙ ap some (omega arith)

  elapsed-add_time :
      (c : Option (Config Zone)) (a n : ℕ)
      → HasRoom n c
      → ConvertsBack a n c
      → elapsed z c a (add_time z c a n) ≡ some (pos n)
  unfolding elapsed count_business_minutes
  elapsed-add_time none a n room same = ground arith
  elapsed-add_time (some cfg) a n room same = ap (Option.map pos) (
      ap (count_local cfg (to_local cfg.tz a)) same
      ∙ count_local-add_loop cfg (to_local cfg.tz a) n room)

  -- Where the hours leave room, the time that `add_business_minutes` returns lies exactly the
  -- duration of business time after its start.
  pub elapsed_business_minutes-add_business_time :
      (tenant : Tenant) (a n : ℕ)
      → HasRoom n (get_business_config z tenant)
      → ConvertsBack a n (get_business_config z tenant)
      → elapsed_business_minutes z a (add_business_time z a n tenant) (some tenant) ≡ some (pos n)
  unfolding elapsed_business_minutes add_business_time
  elapsed_business_minutes-add_business_time tenant a n room same =
      elapsed-add_time (get_business_config z tenant) a n room same
