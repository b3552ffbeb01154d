-- ===== src/Sla/Samples.antt =====
-- Concrete hours and tenants for the tests.
use kanzan.Prelude.{ℕ, ◌+◌, ◌*◌, ◌/◌, ◌<◌, ◌≤◌, ◌≡◌, refl, none, some, [], ◌∷◌, arith, get}
use kanzan.Sla.Clock.{
  minute, day, weekday, Zones, Hours, Times, Config, Tenant, IsTimetable, get_business_config,
  from_settings, get_tz,
}
use kanzan.Sla.Add.Rounds.{LastsAtLeast, WorksEachYear}

-- Every zone is UTC.
abbrev pub only_utc : Zones
only_utc = record {
  Zone = Unit {0};
  utc = tt;
  zone_info = λ name. some tt;
  to_local = λ tz t. t;
  to_utc = λ tz t. t;
}

-- 09:00 to 17:00.
abbrev pub opening : ℕ
opening = 540 * minute

abbrev pub closing : ℕ
closing = 1020 * minute

abbrev pub daytime : Hours
daytime = (opening, closing)

abbrev pub every_day : Times
every_day =
    (0, daytime)
    ∷ (1, daytime)
    ∷ (2, daytime)
    ∷ (3, daytime)
    ∷ (4, daytime)
    ∷ (5, daytime)
    ∷ (6, daytime)
    ∷ []

abbrev pub shop : Config (Unit {0})
shop = record { tz = tt; days = every_day; holiday_dates = [] }

abbrev pub shop_tenant : Tenant
shop_tenant = record {
  business_hours = none;
  settings = some (record {
    business_hours_start = opening;
    business_hours_end = closing;
    business_days = 0 ∷ 1 ∷ 2 ∷ 3 ∷ 4 ∷ 5 ∷ 6 ∷ [];
    timezone = "UTC";
  });
  holidays = [];
}

pub shop_config : get_business_config only_utc shop_tenant ≡ some shop
unfolding get_business_config from_settings get_tz
shop_config = refl

in_a_day : (opening < day) × (closing < day)
in_a_day = (omega arith, omega arith)

pub shop-IsTimetable : IsTimetable every_day
shop-IsTimetable =
    (in_a_day, (in_a_day, (in_a_day, (in_a_day, (in_a_day, (in_a_day, (in_a_day, tt)))))))

-- Eight hours a day.
abbrev pub work : ℕ
work = 480 * minute

lasts : opening / minute * minute + work ≤ closing / minute * minute
lasts = omega arith

pub shop-LastsAtLeast : LastsAtLeast work every_day
shop-LastsAtLeast = (lasts, (lasts, (lasts, (lasts, (lasts, (lasts, (lasts, tt)))))))

get-every_day : (k : ℕ) → k < 7 → get k every_day ≡ some daytime
get-every_day k h = ground arith

pub shop-WorksEachYear : WorksEachYear shop
shop-WorksEachYear m =
    (0, omega arith, daytime, get-every_day (weekday (m + 0 * day)) (omega arith))

-- A Monday at 16:00.
abbrev pub monday_afternoon : ℕ
monday_afternoon = 960 * minute
