-- ===== src/Billing/Tests.antt =====
-- A run of the webhook at concrete events.
use kanzan.Prelude.{ℕ, ◌≡◌, refl, true, false, Option, none, some, List, [], ◌∷◌, arith}
use kanzan.Billing.{
  StripeStatus, Plan, StripeSub, Subscription, created, deleted, Event, Db,
  sync_subscription_from_stripe, plan_of, handle_subscription_deleted, stripe_webhook,
}
use kanzan.Billing.Unique.{IsUnique}
use kanzan.Billing.Webhook.{webhooks, webhooks-IsUnique}

abbrev plans : List Plan
plans =
    record {
      pk = 2;
      stripe_price_monthly = some 20;
      stripe_price_yearly = some 21;
      stripe_product_id = none;
    }
    ∷ []

abbrev sub : ℕ → StripeStatus → StripeSub
sub id status = record {
  id = id;
  customer = 5;
  price = some (record { id = some 21; product = none; is_yearly = true });
  status = status;
  current_period_start = some 100;
  current_period_end = some 200;
  cancel_at_period_end = false;
  canceled_at = none;
  trial_end = none;
  tenant_id = some 7;
}

abbrev nothing : Db
nothing = record { subscriptions = []; processed = [] }

nothing-IsUnique : IsUnique nothing.subscriptions
nothing-IsUnique = record { by_tenant = λ t. omega arith; by_id = λ n. omega arith }

-- A subscription, its end, and the next one of the same tenant, delivered twice.
abbrev events : List Event
events =
    record { id = some 1; payload = created (sub 31 StripeStatus.active) }
    ∷ record { id = some 2; payload = deleted (sub 31 StripeStatus.canceled) }
    ∷ record { id = some 3; payload = created (sub 32 StripeStatus.trialing) }
    ∷ record { id = some 3; payload = created (sub 32 StripeStatus.trialing) }
    ∷ []

webhooks-IsUnique_example : IsUnique (webhooks plans (7 ∷ []) events nothing).subscriptions
webhooks-IsUnique_example = webhooks-IsUnique plans (7 ∷ []) events nothing nothing-IsUnique

abbrev stripe_ids : List Subscription → List (Option ℕ)
stripe_ids [] = []
stripe_ids (r ∷ rs) = r.stripe_subscription_id ∷ stripe_ids rs

repointed : stripe_ids (webhooks plans (7 ∷ []) events nothing).subscriptions ≡ some 32 ∷ []
unfolding stripe_webhook sync_subscription_from_stripe plan_of handle_subscription_deleted
repointed = refl
