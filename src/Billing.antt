-- ===== src/Billing.antt =====
-- apps/billing/webhooks.py: the events that Stripe delivers, and the subscriptions that they bring
-- up to date; invoices are left out. A text that is only compared is a number. The signature of an
-- event is checked before, by the library of Stripe.
pub mod Unique
pub mod Webhook
pub mod Limits
mod Tests
use kanzan.Prelude.{
  ℕ, Bool, true, false, ◌&&◌, ◌||◌, not, Option, none, some, List, [], ◌∷◌, ◌==◌, if◌then◌else◌,
  keep, first, any, is_in,
}

-- `Subscription.Status`
pub data Status : Type 0 where
  trialing active past_due canceled incomplete unpaid : Status

-- The status that Stripe sends.
pub data StripeStatus : Type 0 where
  trialing active past_due canceled incomplete unpaid incomplete_expired paused unknown :
      StripeStatus

-- `status_map.get(…)`
abbrev pub local_status : StripeStatus → Status
local_status StripeStatus.trialing = Status.trialing
local_status StripeStatus.active = Status.active
local_status StripeStatus.past_due = Status.past_due
local_status StripeStatus.canceled = Status.canceled
local_status StripeStatus.incomplete = Status.incomplete
local_status StripeStatus.unpaid = Status.unpaid
local_status StripeStatus.incomplete_expired = Status.canceled
local_status StripeStatus.paused = Status.canceled
local_status StripeStatus.unknown = Status.incomplete

pub record Plan : Type 0 where
  pub pk : ℕ
  pub stripe_price_monthly : Option ℕ
  pub stripe_price_yearly : Option ℕ
  pub stripe_product_id : Option ℕ

-- The first item's price.
pub record Price : Type 0 where
  pub id : Option ℕ
  pub product : Option ℕ
  pub is_yearly : Bool

-- The subscription in an event.
pub record StripeSub : Type 0 where
  pub id : ℕ
  pub customer : ℕ
  pub price : Option Price
  pub status : StripeStatus
  pub current_period_start : Option ℕ
  pub current_period_end : Option ℕ
  pub cancel_at_period_end : Bool
  pub canceled_at : Option ℕ
  pub trial_end : Option ℕ
  pub tenant_id : Option ℕ

-- A row of `Subscription`.
pub record Subscription : Type 0 where
  pub tenant : ℕ
  pub plan : ℕ
  pub stripe_subscription_id : Option ℕ
  pub stripe_customer_id : ℕ
  pub status : Status
  pub is_yearly : Bool
  pub current_period_start : Option ℕ
  pub current_period_end : Option ℕ
  pub cancel_at_period_end : Bool
  pub canceled_at : Option ℕ
  pub trial_end : Option ℕ

abbrev pub is_id : Option ℕ → ℕ → Bool
is_id none n = false
is_id (some m) n = m == n

abbrev pub or_else {ℓ} : {A : Type ℓ} → Option A → Option A → Option A
or_else none b = b
or_else (some a) b = some a

abbrev pub plan_by : (Plan → Option ℕ) → List Plan → Option ℕ → Option Plan
plan_by field plans none = none
plan_by field plans (some n) = first (keep (λ p. is_id (field p) n) plans)

-- The plan of a price: by its monthly price, its yearly price, or its product.
unfoldable pub plan_of : List Plan → Option Price → Option Plan
plan_of plans none = none
plan_of plans (some price) = or_else (plan_by (λ p. p.stripe_price_monthly) plans price.id) (
    or_else (plan_by (λ p. p.stripe_price_yearly) plans price.id)
      (plan_by (λ p. p.stripe_product_id) plans price.product))

abbrev pub bills_yearly : Option Price → Bool
bills_yearly none = false
bills_yearly (some price) = price.is_yearly

-- The row with its fields from an event, for a tenant.
abbrev pub refreshed : StripeSub → Plan → ℕ → Subscription
refreshed s plan tenant = record {
  tenant = tenant;
  plan = plan.pk;
  stripe_subscription_id = some s.id;
  stripe_customer_id = s.customer;
  status = local_status s.status;
  is_yearly = bills_yearly s.price;
  current_period_start = s.current_period_start;
  current_period_end = s.current_period_end;
  cancel_at_period_end = s.cancel_at_period_end;
  canceled_at = s.canceled_at;
  trial_end = s.trial_end;
}

-- The save of the row that a query finds.
abbrev pub update_first :
    (Subscription → Bool) → (Subscription → Subscription) → List Subscription → List Subscription
update_first p change [] = []
update_first p change (r ∷ rs) =
    let rest = update_first p change rs in if p r then change r ∷ rs else r ∷ rest

abbrev pub has_id : ℕ → Subscription → Bool
has_id id r = is_id r.stripe_subscription_id id

abbrev pub of_tenant : ℕ → Subscription → Bool
of_tenant tenant r = r.tenant == tenant

-- A subscription whose id is new: the tenant's row is pointed at it, or a row is made.
abbrev pub save_new : StripeSub → Plan → Option ℕ → List Subscription → Option (List Subscription)
save_new s plan none rows = some rows
save_new s plan (some tenant) rows =
    if any (of_tenant tenant) rows
    then some (update_first (of_tenant tenant) (λ r. refreshed s plan tenant) rows)
    else some (refreshed s plan tenant ∷ rows)

-- A subscription whose row exists; none is the IntegrityError where another row has the tenant.
abbrev pub save_old : StripeSub → Plan → Option ℕ → List Subscription → Option (List Subscription)
save_old s plan none rows = some (update_first (has_id s.id) (λ r. refreshed s plan r.tenant) rows)
save_old s plan (some tenant) rows =
    if any (λ r. of_tenant tenant r && not (has_id s.id r)) rows
    then none
    else some (update_first (has_id s.id) (λ r. refreshed s plan tenant) rows)

-- The tenant that the metadata name is not there.
abbrev pub is_lost : List ℕ → Option ℕ → Bool
is_lost tenants none = false
is_lost tenants (some t) = not (is_in t tenants)

abbrev pub synced :
    List ℕ → StripeSub → Option Plan → List Subscription → Option (List Subscription)
synced tenants s none rows = some rows
synced tenants s (some plan) rows =
    if is_lost tenants s.tenant_id
    then some rows
    else if any (has_id s.id) rows
    then save_old s plan s.tenant_id rows
    else save_new s plan s.tenant_id rows

-- `_sync_subscription_from_stripe`; none when it raises
unfoldable pub sync_subscription_from_stripe :
    List Plan → List ℕ → StripeSub → List Subscription → Option (List Subscription)
sync_subscription_from_stripe plans tenants s rows = synced tenants s (plan_of plans s.price) rows

-- `_handle_subscription_deleted`
unfoldable pub handle_subscription_deleted : StripeSub → List Subscription → List Subscription
handle_subscription_deleted s rows =
    update_first (has_id s.id)
      (λ r. record r { status = Status.canceled; canceled_at = s.canceled_at }) rows

-- The events with a handler for subscriptions; the handlers of invoices are not modelled.
pub data Payload : Type 0 where
  created updated deleted : StripeSub → Payload
  other : Payload

pub record Event : Type 0 where
  pub id : Option ℕ
  pub payload : Payload

pub record Db : Type 0 where
  pub subscriptions : List Subscription
  -- the markers in the cache, whose expiry after 7 days is left out
  pub processed : List ℕ

abbrev pub is_marked : Option ℕ → Db → Bool
is_marked none db = false
is_marked (some id) db = is_in id db.processed

abbrev pub marked : Option ℕ → List ℕ → List ℕ
marked none ids = ids
marked (some id) ids = id ∷ ids

abbrev pub handle : List Plan → List ℕ → Payload → List Subscription → Option (List Subscription)
handle plans tenants (created s) rows = sync_subscription_from_stripe plans tenants s rows
handle plans tenants (updated s) rows = sync_subscription_from_stripe plans tenants s rows
handle plans tenants (deleted s) rows = some (handle_subscription_deleted s rows)
handle plans tenants other rows = some rows

abbrev pub is_handled : Payload → Bool
is_handled other = false
is_handled (created s) = true
is_handled (updated s) = true
is_handled (deleted s) = true

-- The answer to an event, whose marker is set after its handler.
abbrev pub answered : Event → Db → Option (List Subscription) → ℕ × Db
answered e db none = (500, db)
answered e db (some rows) =
    if is_handled e.payload
    then (200, record { subscriptions = rows; processed = marked e.id db.processed })
    else (200, db)

-- `stripe_webhook`, of an event whose signature is valid: the status of the response and the tables
unfoldable pub stripe_webhook : List Plan → List ℕ → Event → Db → ℕ × Db
stripe_webhook plans tenants e db =
    if is_marked e.id db
    then (200, db)
    else answered e db (handle plans tenants e.payload db.subscriptions)
