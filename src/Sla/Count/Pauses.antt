-- ===== src/Sla/Count/Pauses.antt =====
-- `get_effective_elapsed_minutes` of apps/tickets/sla.py: pauses stop the clock.
use kanzan.Prelude.{ℕ, ◌+◌, ◌-◌, ◌≤◌, ◌≡◌, refl, true, some, List, [], ◌∷◌, arith, ap, ◌∙◌}
use kanzan.Prelude.Int.{pos, pos_part, ◌+ℤ◌, ◌-ℤ◌}
use kanzan.Sla.Clock.{Config, IsTimetable, Zones, Tenant, get_business_config}
use kanzan.Sla.Clock.Open.{open_time, open_time-split}
use kanzan.Sla.Count.{
  Pause, Policy, pause_end, since, elapsed, sum_pauses, get_total_pause_minutes,
  get_effective_elapsed_minutes,
}
use kanzan.Sla.Count.Measure.{count_business_minutes-open_time}

-- The pauses follow one another from `a` to `now`, in UTC and on the local clock `l`.
abbrev pub InOrder : (ℕ → ℕ) → ℕ → List Pause → ℕ → Type 0
InOrder l a [] now = l a ≤ l now
InOrder l a (p ∷ ps) now =
    (a ≤ p.paused_at)
    × (p.paused_at ≤ pause_end now p)
    × (l a ≤ l p.paused_at)
    × (l p.paused_at ≤ l (pause_end now p))
    × InOrder l (pause_end now p) ps now

pos-add : (m n : ℕ) → pos m +ℤ pos n ≡ pos (m + n)
unfolding ◌+ℤ◌
pos-add m n = ground arith

pos_part-sub : (a b c : ℕ) → c + b ≡ a → pos_part (pos a -ℤ pos b) ≡ c
unfolding ◌-ℤ◌
pos_part-sub a b c h = ground arith

module _ (z : Zones) (cfg : Config z.Zone) (valid : IsTimetable cfg.days) where
  abbrev local : ℕ → ℕ
  local = z.to_local cfg.tz

  -- The business instants between two UTC times.
  abbrev between : ℕ → ℕ → ℕ
  between a b = open_time cfg (local a) (local b - local a)

  paused : ℕ → List Pause → ℕ
  paused now [] = 0
  paused now (p ∷ ps) = between p.paused_at (pause_end now p) + paused now ps

  -- The business instants from `a` to `now` that lie in no pause.
  pub running : ℕ → List Pause → ℕ → ℕ
  running a [] now = between a now
  running a (p ∷ ps) now = between a p.paused_at + running (pause_end now p) ps now

  InOrder-le : (a : ℕ) (ps : List Pause) (now : ℕ) → InOrder local a ps now → local a ≤ local now
  InOrder-le a [] now h = h
  InOrder-le a (p ∷ ps) now h = omega (arith, InOrder-le (pause_end now p) ps now h.4)

  running-paused :
      (a : ℕ) (ps : List Pause) (now : ℕ)
      → InOrder local a ps now
      → running a ps now + paused now ps ≡ between a now
  unfolding running paused
  running-paused a [] now h = omega arith
  running-paused a (p ∷ ps) now h =
      let e = pause_end now p in
      let after = InOrder-le e ps now h.4 in
      omega (
        arith,
        running-paused e ps now h.4,
        open_time-split cfg (local a) (local p.paused_at) (local now) h.2 (omega arith),
        open_time-split cfg (local p.paused_at) (local e) (local now) h.3 after,
      )

  -- The query for the pauses since `start` drops none of these.
  since-InOrder :
      (start a : ℕ) (ps : List Pause) (now : ℕ)
      → start ≤ a
      → InOrder local a ps now
      → since start ps ≡ ps
  since-InOrder start a [] now le h = refl
  since-InOrder start a (p ∷ ps) now le h =
      ground (arith, since-InOrder start (pause_end now p) ps now (omega arith) h.4)

  elapsed-between : (a b : ℕ) → elapsed z (some cfg) a b ≡ some (pos (between a b))
  unfolding elapsed
  elapsed-between a b = rw (count_business_minutes-open_time z a b cfg valid)

  sum_pauses-paused :
      (now : ℕ) (ps : List Pause) (t : ℕ)
      → sum_pauses z (some cfg) now ps (pos t) ≡ some (pos (t + paused now ps))
  unfolding sum_pauses paused
  sum_pauses-paused now [] t = ap (λ k. some (pos k)) (omega arith)
  sum_pauses-paused now (p ∷ ps) t =
      let k = between p.paused_at (pause_end now p) in
      rw (elapsed-between p.paused_at (pause_end now p), sum_pauses, pos-add t k)
        (sum_pauses-paused now ps (t + k) ∙ ap (λ n. some (pos n)) (omega arith))

  -- Under a business-hours policy whose tenant has hours, the effective elapsed time of a ticket
  -- whose pauses follow one another is the number of business instants outside the pauses.
  pub effective-running :
      (created now : ℕ) (pauses : List Pause) (policy : Policy) (tenant : Tenant)
      → policy.business_hours_only ≡ true
      → get_business_config z tenant ≡ some cfg
      → InOrder local created pauses now
      → get_effective_elapsed_minutes z created pauses policy tenant now
        ≡ some (running created pauses now)
  unfolding get_effective_elapsed_minutes get_total_pause_minutes
  effective-running created now pauses policy tenant only has h =
      rw (only, has)
        (rw (elapsed-between created now, since-InOrder created created pauses now (omega arith) h)
          (rw (sum_pauses-paused now pauses 0)
            (ap some (pos_part-sub _ _ _ (omega (arith, running-paused created pauses now h))))))
