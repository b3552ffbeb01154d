-- ===== src/Tickets/Breach/Tests.antt =====
-- A run of the check of a tenant at a concrete ticket.
use kanzan.Prelude.{
  ℕ, ◌≡◌, ◌+◌, ◌*◌, refl, true, false, none, some, List, [], ◌∷◌, get_elem?, arith,
}
use mathlib.Core.Path.{subst, sym}
use kanzan.Sla.Clock.{minute, get_business_config}
use kanzan.Sla.Count.{get_effective_elapsed_minutes, get_total_pause_minutes, elapsed}
use kanzan.Prelude.Int.{◌-ℤ◌}
use kanzan.Sla.Count.Returns.{TimesOfDay}
use kanzan.Sla.Samples.{only_utc, shop_tenant, shop_config, shop-IsTimetable}
use kanzan.Tickets.Rows.{Priority, Effect, response_breach}
use kanzan.Tickets.Samples.{fresh}
use kanzan.Tickets.Escalate.{SlaPolicy}
use kanzan.Tickets.Breach.{check_tenant_sla}
use kanzan.Tickets.Breach.Rules.{Watched, Team, EscalationRule, Trigger, Action}
use kanzan.Tickets.Breach.Scan.{flag, check_tenant_sla_reaches}

shop-TimesOfDay : TimesOfDay only_utc (get_business_config only_utc shop_tenant)
shop-TimesOfDay = subst (TimesOfDay only_utc) (sym shop_config) shop-IsTimetable

-- An hour for the first response, around the clock.
abbrev policy : SlaPolicy
policy = record {
  pk = 1;
  priority = Priority.medium;
  is_active = true;
  terms = record {
    first_response_minutes = 60;
    resolution_minutes = 480;
    business_hours_only = false;
  };
}

abbrev team : Team
team = record { admins = 1 ∷ 2 ∷ []; members = λ role. 3 ∷ [] }

abbrev rules : ℕ → List EscalationRule
rules policy_pk =
    record {
      pk = 9;
      trigger = Trigger.response_breach;
      threshold_minutes = 0;
      action = Action.change_priority;
      target_user = none;
      target_role = none;
    }
    ∷ []

abbrev watched : Watched
watched = record { ticket = fresh; pauses = []; updated_at = 100; is_deleted = false; fired = [] }

abbrev an_hour_later : ℕ
an_hour_later = 100 + 61 * minute

elapsed_time :
    get_effective_elapsed_minutes only_utc 100 [] policy.terms shop_tenant an_hour_later
    ≡ some (61 * minute)
unfolding get_effective_elapsed_minutes get_total_pause_minutes elapsed ◌-ℤ◌
elapsed_time = ground arith

check_tenant_sla_reaches_example :
    (r : List Watched × List Effect) × (v : Watched) × (check_tenant_sla only_utc shop_tenant team
        rules
        (policy ∷ [])
        an_hour_later
        (watched ∷ [])
      ≡ some r)
    × (get_elem? r.0 0 ≡ some v)
    × (flag response_breach v.ticket ≡ true)
check_tenant_sla_reaches_example =
    check_tenant_sla_reaches only_utc shop_tenant team rules shop-TimesOfDay response_breach
      (policy ∷ []) an_hour_later (61 * minute) (watched ∷ []) 0 watched policy refl refl refl refl
      elapsed_time refl
