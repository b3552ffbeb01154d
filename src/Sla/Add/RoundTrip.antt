-- ===== src/Sla/Add/RoundTrip.antt =====
-- `_add_business_minutes` against `_count_business_minutes` (apps/tickets/sla.py).
use kanzan.Prelude.{ℕ, ◌-◌, ◌*◌, ◌≤◌, ◌≡◌, some, arith, ap, ◌∙◌}
use kanzan.Sla.Clock.{minute, Config, IsTimetable, Zones}
use kanzan.Sla.Count.{count_local, count_business_minutes}
use kanzan.Sla.Count.Measure.{count_local-open_time}
use kanzan.Sla.Add.{add_loop, add_local, max_rounds, add_business_minutes_in}
use kanzan.Sla.Add.Steps.{add_loop-Passes}
use kanzan.Sla.Add.Rounds.{LastsAtLeast, WorksEachYear, add_loop_ends_anywhere}

module _ {Z : Type 0} (cfg : Config Z) (valid : IsTimetable cfg.days) where
  -- Whenever the loop of `_add_business_minutes` stops, the business time from the start to where
  -- it stopped and the time that remains make up the minutes asked for.
  count_local-add_local :
      (a minutes : ℕ)
      → let (l, remaining) = add_local cfg a minutes in
        (remaining ≤ minutes * minute) × (count_local cfg a l ≡ some (minutes * minute - remaining))
  unfolding add_local
  count_local-add_local a minutes =
      let p = add_loop-Passes cfg valid max_rounds a (minutes * minute) in
      (
        p.0,
        count_local-open_time cfg valid a (add_loop max_rounds cfg a (minutes * minute)).0
            ∙ ap some p.1.1,
      )

  add_local-done :
      (w a minutes : ℕ)
      → LastsAtLeast w cfg.days
      → WorksEachYear cfg
      → minutes * minute ≤ 8759 * w
      → (add_local cfg a minutes).1 ≡ 0
  unfolding add_local
  add_local-done w a minutes wide yearly enough =
      add_loop_ends_anywhere cfg valid w wide yearly 8759 a (minutes * minute) enough

-- If every worked day lasts at least `w`, one of any 365 days in a row is worked, and the minutes
-- are at most 8759 such days' work, the deadline lies exactly that much business time after the
-- start, provided the deadline's local time converts to UTC and back unchanged.
pub count-add_business_minutes :
    (z : Zones) (cfg : Config z.Zone) (w a minutes : ℕ)
    → IsTimetable cfg.days
    → LastsAtLeast w cfg.days
    → WorksEachYear cfg
    → minutes * minute ≤ 8759 * w
    → (let l = (add_local cfg (z.to_local cfg.tz a) minutes).0 in
        z.to_local cfg.tz (z.to_utc cfg.tz l) ≡ l)
    → count_business_minutes z a (add_business_minutes_in z a minutes cfg) cfg
      ≡ some (minutes * minute)
unfolding count_business_minutes add_business_minutes_in
count-add_business_minutes z cfg w a minutes valid wide yearly enough same =
    let start = z.to_local cfg.tz a in
    let counted = count_local-add_local cfg valid start minutes in
    let done = add_local-done cfg valid w start minutes wide yearly enough in
    ap (count_local cfg start) same ∙ counted.1 ∙ ap some (omega arith)
