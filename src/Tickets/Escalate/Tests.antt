-- ===== src/Tickets/Escalate/Tests.antt =====
-- Runs of an escalation at concrete hours.
use kanzan.Prelude.{ℕ, ◌≡◌, ◌*◌, ◌+◌, ◌≤◌, ◌⊎◌, max, refl, Option, none, some, arith}
use kanzan.Prelude.Int.{pos}
use mathlib.Core.Path.{subst, sym}
use kanzan.Sla.Clock.{minute, get_business_config}
use kanzan.Sla.Count.{elapsed_business_minutes}
use kanzan.Sla.Add.Elapsed.{HasRoom, ConvertsBack}
use kanzan.Sla.Samples.{
  only_utc, shop_tenant, shop_config, shop-IsTimetable, work, shop-LastsAtLeast, shop-WorksEachYear,
  monday_afternoon,
}
use kanzan.Tickets.Escalate.{min_extension, extend_deadline}
use kanzan.Tickets.Escalate.Extended.{base, extension, extend_deadline_bounds}

-- Two hours before the deadline.
abbrev due : Option ℕ
due = some (monday_afternoon + 120 * minute)

shop-HasRoom :
    HasRoom only_utc (extension monday_afternoon due 480) (get_business_config only_utc shop_tenant)
shop-HasRoom =
    subst (HasRoom only_utc (extension monday_afternoon due 480)) (sym shop_config)
      (work, shop-IsTimetable, shop-LastsAtLeast, shop-WorksEachYear, omega arith)

shop-ConvertsBack :
    ConvertsBack only_utc
      (base monday_afternoon due)
      (extension monday_afternoon due 480)
      (get_business_config only_utc shop_tenant)
shop-ConvertsBack =
    subst (ConvertsBack only_utc (base monday_afternoon due) (extension monday_afternoon due 480))
      (sym shop_config) refl

extend_deadline_bounds_example :
    (n : ℕ) × (elapsed_business_minutes only_utc
        (base monday_afternoon due)
        (extend_deadline only_utc shop_tenant monday_afternoon due 480)
        (some shop_tenant)
      ≡ some (pos n))
    × (n ≤ max min_extension (480 * minute))
    × ((due ≡ none) ⊎ (min_extension ≤ n))
extend_deadline_bounds_example =
    extend_deadline_bounds only_utc shop_tenant monday_afternoon due 480 shop-HasRoom
      shop-ConvertsBack
