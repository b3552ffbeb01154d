-- ===== src/Sla/Tests.antt =====
-- Runs of the SLA arithmetic at concrete hours.
use kanzan.Prelude.{◌+◌, ◌-◌, ◌*◌, ◌≡◌, refl, true, some, List, [], ◌∷◌, arith}
use kanzan.Sla.Samples.{
  monday_afternoon, only_utc, opening, closing, shop, shop_tenant, shop_config, shop-IsTimetable,
  work, shop-LastsAtLeast, shop-WorksEachYear,
}
use kanzan.Sla.Clock.{minute, day}
use kanzan.Sla.Clock.Open.{open_time}
use kanzan.Sla.Count.{count_business_minutes, Pause, Policy, get_effective_elapsed_minutes}
use kanzan.Sla.Count.Measure.{count_business_minutes-open_time}
use kanzan.Sla.Count.Pauses.{running, effective-running}
use kanzan.Sla.Add.{add_business_minutes_in}
use kanzan.Sla.Add.RoundTrip.{count-add_business_minutes}

count-add_business_minutes_example :
    count_business_minutes only_utc monday_afternoon
      (add_business_minutes_in only_utc monday_afternoon 600 shop)
      shop
    ≡ some (600 * minute)
count-add_business_minutes_example =
    count-add_business_minutes only_utc shop work monday_afternoon 600 shop-IsTimetable
      shop-LastsAtLeast shop-WorksEachYear (omega arith) refl

count_business_minutes-open_time_example :
    count_business_minutes only_utc monday_afternoon (day + opening) shop
    ≡ some (open_time shop monday_afternoon (day + opening - monday_afternoon))
count_business_minutes-open_time_example =
    count_business_minutes-open_time only_utc monday_afternoon (day + opening) shop shop-IsTimetable

abbrev pauses : List Pause
pauses = record { paused_at = 970 * minute; resumed_at = some (990 * minute) } ∷ []

abbrev policy : Policy
policy = record {
  first_response_minutes = 60;
  resolution_minutes = 480;
  business_hours_only = true;
}

effective-running_example :
    get_effective_elapsed_minutes only_utc monday_afternoon pauses policy shop_tenant closing
    ≡ some (running only_utc shop shop-IsTimetable monday_afternoon pauses closing)
effective-running_example =
    effective-running only_utc shop shop-IsTimetable monday_afternoon closing pauses policy
      shop_tenant refl shop_config (omega arith, omega arith, omega arith, omega arith, omega arith)
