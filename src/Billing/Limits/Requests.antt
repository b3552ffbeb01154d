-- ===== src/Billing/Limits/Requests.antt =====
-- What the limits of a plan bound (apps/billing/services.py).
use kanzan.Prelude.{ℕ, ◌+◌, ◌≤◌, ◌≡◌, ◌∙◌, some, List, [], ◌∷◌, max, arith}
use kanzan.Billing.Limits.{
  Limits, Account, allowed, plan, check_limit, check_can_create_ticket, check_can_create_contact,
  check_can_add_custom_field, Request, perform_create, requests,
}

perform_create-kept :
    (r : Request) (a : Account)
    → let b = perform_create r a in
      (b.subscribed ≡ a.subscribed) × (b.free ≡ a.free) × (b.usage ≡ a.usage)
unfolding perform_create
perform_create-kept r a = (ground arith, ground arith, ground arith)

perform_create-custom_fields :
    (r : Request) (a : Account) (p : Limits) (m : ℕ)
    → plan a ≡ some p
    → p.max_custom_fields ≡ some m
    → (perform_create r a).custom_fields ≤ max m a.custom_fields
unfolding perform_create check_can_add_custom_field check_limit
perform_create-custom_fields r a p m e l = ground arith

-- Whatever requests are made, a tenant whose plan limits custom fields never has more of them than
-- the limit, or than it had before.
requests-custom_fields :
    (rs : List Request) (a : Account) (p : Limits) (m : ℕ)
    → plan a ≡ some p
    → p.max_custom_fields ≡ some m
    → (requests rs a).custom_fields ≤ max m a.custom_fields
unfolding requests
requests-custom_fields [] a p m e l = omega arith
requests-custom_fields (r ∷ rs) a p m e l =
    let b = perform_create r a in
    let kept = perform_create-kept r a in
    let same : plan b ≡ some p = ground (arith, kept.0, kept.1, e) in
    omega (arith, requests-custom_fields rs b p m same l, perform_create-custom_fields r a p m e l)

abbrev pub is_ticket : Request → ℕ
is_ticket Request.create_ticket = 1
is_ticket _ = 0

abbrev pub is_contact : Request → ℕ
is_contact Request.create_contact = 1
is_contact _ = 0

-- How many of the requests ask for a row of a kind.
abbrev pub total : (Request → ℕ) → List Request → ℕ
total f [] = 0
total f (r ∷ rs) = f r + total f rs

perform_create-counted :
    (r : Request) (a : Account)
    → check_can_create_ticket a ≡ allowed
    → check_can_create_contact a ≡ allowed
    → ((perform_create r a).tickets ≡ a.tickets + is_ticket r)
      × ((perform_create r a).contacts ≡ a.contacts + is_contact r)
unfolding perform_create
perform_create-counted r a t c = (ground arith, ground arith)

same_verdicts :
    (a b : Account)
    → b.subscribed ≡ a.subscribed
    → b.free ≡ a.free
    → b.usage ≡ a.usage
    → (check_can_create_ticket b ≡ check_can_create_ticket a)
      × (check_can_create_contact b ≡ check_can_create_contact a)
unfolding check_can_create_ticket check_can_create_contact
same_verdicts a b s f u = (cc, cc)

-- Where the plan lets a tenant make one ticket and one contact, it lets it make every ticket and
-- contact that is asked for, however many: no request changes the counters that the checks read.
pub requests_unlimited :
    (rs : List Request) (a : Account)
    → check_can_create_ticket a ≡ allowed
    → check_can_create_contact a ≡ allowed
    → ((requests rs a).tickets ≡ a.tickets + total is_ticket rs)
      × ((requests rs a).contacts ≡ a.contacts + total is_contact rs)
unfolding requests
requests_unlimited [] a t c = (omega arith, omega arith)
requests_unlimited (r ∷ rs) a t c =
    let b = perform_create r a in
    let (s, f, u) = perform_create-kept r a in
    let (same_t, same_c) = same_verdicts a b s f u in
    let (tickets, contacts) = requests_unlimited rs b (same_t ∙ t) (same_c ∙ c) in
    let counted = perform_create-counted r a t c in
    (omega (arith, tickets, counted.0), omega (arith, contacts, counted.1))
