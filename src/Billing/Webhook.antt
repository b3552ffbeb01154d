-- ===== src/Billing/Webhook.antt =====
-- What sequences of events do to the subscriptions (apps/billing/webhooks.py).
use kanzan.Prelude.{
  ℕ, ◌≡◌, refl, false, ◌&&◌, not, Option, none, some, List, [], ◌∷◌, any, arith, Bool-cases, inl,
  inr,
}
use kanzan.Billing.{
  Status, Plan, StripeSub, Subscription, has_id, of_tenant, save_new, save_old, synced, plan_of,
  sync_subscription_from_stripe, handle_subscription_deleted, Payload, created, updated, deleted,
  other, Event, Db, is_lost, is_marked, is_handled, handle, answered, stripe_webhook,
}
use kanzan.Billing.Unique.{
  IsUnique, count-update_first, repoint-IsUnique, insert-IsUnique, refresh-IsUnique, move-IsUnique,
}

-- Where a result is stored, its rows are unique.
abbrev pub StaysUnique : Option (List Subscription) → Type 0
StaysUnique none = Unit {0}
StaysUnique (some rows) = IsUnique rows

module _ (s : StripeSub) (plan : Plan) where
  save_new-StaysUnique :
      (tenant : Option ℕ) (rows : List Subscription)
      → any (has_id s.id) rows ≡ false
      → IsUnique rows
      → StaysUnique (save_new s plan tenant rows)
  save_new-StaysUnique none rows new u = u
  save_new-StaysUnique (some t) rows new u = elim (Bool-cases (any (of_tenant t) rows)) [
    | inl held ↦ rw held (repoint-IsUnique s plan t rows new u)
    | inr free ↦ rw free (insert-IsUnique s plan t rows new free u)
  ]

  save_old-StaysUnique :
      (tenant : Option ℕ) (rows : List Subscription)
      → IsUnique rows
      → StaysUnique (save_old s plan tenant rows)
  save_old-StaysUnique none rows u = refresh-IsUnique s plan rows u
  save_old-StaysUnique (some t) rows u =
      elim (Bool-cases (any (λ r. of_tenant t r && not (has_id s.id r)) rows)) [
        | inl taken ↦ rw taken tt
        | inr free ↦ rw free (move-IsUnique s plan t rows free u)
      ]

synced-StaysUnique :
    (tenants : List ℕ) (s : StripeSub) (o : Option Plan) (rows : List Subscription)
    → IsUnique rows
    → StaysUnique (synced tenants s o rows)
synced-StaysUnique tenants s none rows u = u
synced-StaysUnique tenants s (some plan) rows u = elim (Bool-cases (is_lost tenants s.tenant_id)) [
  | inl lost ↦ rw lost u
  | inr there ↦ elim (Bool-cases (any (has_id s.id) rows)) [
    | inl old ↦ rw (there, old) (save_old-StaysUnique s plan s.tenant_id rows u)
    | inr new ↦ rw (there, new) (save_new-StaysUnique s plan s.tenant_id rows new u)
  ]
]

handle_subscription_deleted-IsUnique :
    (s : StripeSub) (rows : List Subscription)
    → IsUnique rows
    → IsUnique (handle_subscription_deleted s rows)
unfolding handle_subscription_deleted
handle_subscription_deleted-IsUnique s rows u = record {
  by_tenant = λ k.
      let same =
        count-update_first (of_tenant k) (has_id s.id)
          (λ r. record r { status = Status.canceled; canceled_at = s.canceled_at }) rows
          (λ r h. refl) in
      let before = u.by_tenant k in omega arith;
  by_id = λ n.
      let same =
        count-update_first (has_id n) (has_id s.id)
          (λ r. record r { status = Status.canceled; canceled_at = s.canceled_at }) rows
          (λ r h. refl) in
      let before = u.by_id n in omega arith;
}

handle-StaysUnique :
    (plans : List Plan) (tenants : List ℕ) (p : Payload) (rows : List Subscription)
    → IsUnique rows
    → StaysUnique (handle plans tenants p rows)
unfolding sync_subscription_from_stripe
handle-StaysUnique plans tenants (created s) rows u =
    synced-StaysUnique tenants s (plan_of plans s.price) rows u
handle-StaysUnique plans tenants (updated s) rows u =
    synced-StaysUnique tenants s (plan_of plans s.price) rows u
handle-StaysUnique plans tenants (deleted s) rows u = handle_subscription_deleted-IsUnique s rows u
handle-StaysUnique plans tenants other rows u = u

answered-IsUnique :
    (e : Event) (db : Db) (o : Option (List Subscription))
    → IsUnique db.subscriptions
    → StaysUnique o
    → IsUnique (answered e db o).1.subscriptions
answered-IsUnique e db none u h = u
answered-IsUnique e db (some rows) u h = elim (Bool-cases (is_handled e.payload)) [
  | inl on ↦ rw on h
  | inr off ↦ rw off u
]

stripe_webhook-IsUnique :
    (plans : List Plan) (tenants : List ℕ) (e : Event) (db : Db)
    → IsUnique db.subscriptions
    → IsUnique (stripe_webhook plans tenants e db).1.subscriptions
unfolding stripe_webhook
stripe_webhook-IsUnique plans tenants e db u = elim (Bool-cases (is_marked e.id db)) [
  | inl seen ↦ rw seen u
  | inr new ↦ rw new (
      answered-IsUnique e db (handle plans tenants e.payload db.subscriptions) u
        (handle-StaysUnique plans tenants e.payload db.subscriptions u))
]

-- Events one after another.
abbrev pub webhooks : List Plan → List ℕ → List Event → Db → Db
webhooks plans tenants [] db = db
webhooks plans tenants (e ∷ es) db = webhooks plans tenants es (stripe_webhook plans tenants e db).1

-- Whatever events are delivered, in whatever order and with repetitions, a tenant keeps one
-- subscription at most, and an id of Stripe one row at most.
pub webhooks-IsUnique :
    (plans : List Plan) (tenants : List ℕ) (es : List Event) (db : Db)
    → IsUnique db.subscriptions
    → IsUnique (webhooks plans tenants es db).subscriptions
webhooks-IsUnique plans tenants [] db u = u
webhooks-IsUnique plans tenants (e ∷ es) db u =
    webhooks-IsUnique plans tenants es (stripe_webhook plans tenants e db).1
      (stripe_webhook-IsUnique plans tenants e db u)
