-- ===== src/Billing/Unique.antt =====
-- A tenant has one subscription at most, and a subscription one row (apps/billing/webhooks.py).
use kanzan.Prelude.{
  ℕ, suc, ◌+◌, ◌≤◌, ◌≡◌, refl, Bool, true, false, ◌&&◌, not, List, [], ◌∷◌, ◌==◌, if◌then◌else◌,
  any, arith, Bool-cases, inl, inr,
}
use mathlib.Core.Path.{subst}
use kanzan.Billing.{Plan, StripeSub, Subscription, refreshed, update_first, has_id, of_tenant}

-- The rows that pass a test.
abbrev pub count : (Subscription → Bool) → List Subscription → ℕ
count p [] = 0
count p (r ∷ rs) = let rest = count p rs in if p r then suc rest else rest

pub record IsUnique (rows : List Subscription) : Type 0 where
  pub by_tenant : (t : ℕ) → count (of_tenant t) rows ≤ 1
  pub by_id : (n : ℕ) → count (has_id n) rows ≤ 1

count-any :
    (p : Subscription → Bool) (rows : List Subscription) → any p rows ≡ false → count p rows ≡ 0
count-any p [] h = refl
count-any p (r ∷ rs) h = ground (arith, count-any p rs)

-- A change that a test does not see leaves its count.
pub count-update_first :
    (q p : Subscription → Bool) (change : Subscription → Subscription) (rows : List Subscription)
    → ((r : Subscription) → p r ≡ true → q (change r) ≡ q r)
    → count q (update_first p change rows) ≡ count q rows
count-update_first q p change [] h = refl
count-update_first q p change (r ∷ rs) h = elim (Bool-cases (p r)) [
  | inl here ↦ rw here (rw (h r here) refl)
  | inr off ↦ rw off (ground (arith, count-update_first q p change rs h))
]

-- A change adds one row to a count at most, and none where the test fails after it.
count-update_first-le :
    (q p : Subscription → Bool) (change : Subscription → Subscription) (b : Bool)
    (rows : List Subscription)
    → ((r : Subscription) → p r ≡ true → q (change r) ≡ b)
    → count q (update_first p change rows) ≤ count q rows + (if b then 1 else 0)
count-update_first-le q p change b [] h = ground arith
count-update_first-le q p change b (r ∷ rs) h = elim (Bool-cases (p r)) [
  | inl here ↦ rw here (rw (h r here) (ground arith))
  | inr off ↦ rw off (ground (arith, count-update_first-le q p change b rs h))
]

count-le-any :
    (q p : Subscription → Bool) (rows : List Subscription)
    → any (λ r. q r && not (p r)) rows ≡ false
    → count q rows ≤ count p rows
count-le-any q p [] h = omega arith
count-le-any q p (r ∷ rs) h = ground (arith, count-le-any q p rs)

any-update_first :
    (q p : Subscription → Bool) (change : Subscription → Subscription) (rows : List Subscription)
    → ((r : Subscription) → p (change r) ≡ true)
    → any (λ r. q r && not (p r)) rows ≡ false
    → any (λ r. q r && not (p r)) (update_first p change rows) ≡ false
any-update_first q p change [] h k = refl
any-update_first q p change (r ∷ rs) h k = elim (Bool-cases (p r)) [
  | inl here ↦ let after = h r in rw here (ground arith)
  | inr off ↦ let rest = any-update_first q p change rs h (ground arith) in rw off (ground arith)
]

module _ (s : StripeSub) (plan : Plan) where
  pub repoint-IsUnique :
      (t : ℕ) (rows : List Subscription)
      → any (has_id s.id) rows ≡ false
      → IsUnique rows
      → IsUnique (update_first (of_tenant t) (λ r. refreshed s plan t) rows)
  repoint-IsUnique t rows new u = record {
    by_tenant = λ k.
        let same =
          count-update_first (of_tenant k) (of_tenant t) (λ r. refreshed s plan t) rows
            (λ r h. ground arith) in
        let before = u.by_tenant k in omega arith;
    by_id = λ n.
        let more =
          count-update_first-le (has_id n) (of_tenant t) (λ r. refreshed s plan t) (s.id == n) rows
            (λ r h. refl) in
        let before = u.by_id n in
        let none_yet = count-any (has_id s.id) rows new in
        elim (Bool-cases (s.id == n)) [
          | inl this ↦
              let e : s.id ≡ n = ground arith in
              let zero_n : count (has_id n) rows ≡ 0 =
                subst (λ m. count (has_id m) rows ≡ 0) e none_yet in
              ground arith
          | inr off ↦ ground arith
        ];
  }

  pub insert-IsUnique :
      (t : ℕ) (rows : List Subscription)
      → any (has_id s.id) rows ≡ false
      → any (of_tenant t) rows ≡ false
      → IsUnique rows
      → IsUnique (refreshed s plan t ∷ rows)
  insert-IsUnique t rows new free u = record {
    by_tenant = λ k.
        let before = u.by_tenant k in
        let none_yet = count-any (of_tenant t) rows free in
        elim (Bool-cases (t == k)) [
          | inl this ↦
              let e : t ≡ k = ground arith in
              let zero_k : count (of_tenant k) rows ≡ 0 =
                subst (λ m. count (of_tenant m) rows ≡ 0) e none_yet in
              rw this (omega arith)
          | inr off ↦ rw off before
        ];
    by_id = λ n.
        let before = u.by_id n in
        let none_yet = count-any (has_id s.id) rows new in
        elim (Bool-cases (s.id == n)) [
          | inl this ↦
              let e : s.id ≡ n = ground arith in
              let zero_n : count (has_id n) rows ≡ 0 =
                subst (λ m. count (has_id m) rows ≡ 0) e none_yet in
              rw this (omega arith)
          | inr off ↦ rw off before
        ];
  }

  pub refresh-IsUnique :
      (rows : List Subscription)
      → IsUnique rows
      → IsUnique (update_first (has_id s.id) (λ r. refreshed s plan r.tenant) rows)
  refresh-IsUnique rows u = record {
    by_tenant = λ k.
        let same =
          count-update_first (of_tenant k) (has_id s.id) (λ r. refreshed s plan r.tenant) rows
            (λ r h. refl) in
        let before = u.by_tenant k in omega arith;
    by_id = λ n.
        let same =
          count-update_first (has_id n) (has_id s.id) (λ r. refreshed s plan r.tenant) rows
            (λ r h. ground arith) in
        let before = u.by_id n in omega arith;
  }

  pub move-IsUnique :
      (t : ℕ) (rows : List Subscription)
      → any (λ r. of_tenant t r && not (has_id s.id r)) rows ≡ false
      → IsUnique rows
      → IsUnique (update_first (has_id s.id) (λ r. refreshed s plan t) rows)
  move-IsUnique t rows free u =
      let same = λ (n : ℕ).
        count-update_first (has_id n) (has_id s.id) (λ r. refreshed s plan t) rows
          (λ r h. ground arith) in
      record {
        by_tenant = λ k.
            let before = u.by_tenant k in
            let before_id = u.by_id s.id in
            elim (Bool-cases (t == k)) [
              | inl this ↦
                  let e : t ≡ k = ground arith in
                  let below =
                    count-le-any (of_tenant t) (has_id s.id)
                      (update_first (has_id s.id) (λ r. refreshed s plan t) rows)
                      (any-update_first (of_tenant t) (has_id s.id) (λ r. refreshed s plan t) rows
                        (λ r. ground arith) free) in
                  let same_id = same s.id in
                  subst
                    (λ m.
                      count (of_tenant m)
                        (update_first (has_id s.id) (λ r. refreshed s plan t) rows)
                      ≤ 1)
                    e (omega arith)
              | inr off ↦
                  let more =
                    count-update_first-le (of_tenant k) (has_id s.id) (λ r. refreshed s plan t)
                      false rows (λ r h. off) in
                  omega arith
            ];
        by_id = λ n. let before = u.by_id n in let same_n = same n in omega arith;
      }
