-- ===== src/Hub/Select/Least.antt =====
-- The agent that is chosen (apps/inbox_hub/assignment.py).
use kanzan.Prelude.{
  ℕ, ◌+◌, ◌-◌, ◌≡◌, ◌⊎◌, refl, sym, Bool, true, false, ◌&&◌, ◌||◌, ltb, leb, Option, none, some,
  List, [], ◌∷◌, ◌==◌, if◌then◌else◌, is_in, keep, arith, All, Bool-cases, inl, inr,
}
use mathlib.Core.Path.{subst}
use kanzan.Hub.Assignment.{assign_to}
use kanzan.Hub.Assignment.Once.{is_free, assign_to_taken}
use kanzan.Hub.Store.{HubEmail, Reason, find, Availability, Db, Now, is_assignable}
use kanzan.Hub.Select.{
  Strategy, availability_aware, least_loaded, round_robin, before, least, candidates, choose,
  select_agent, Pools, candidate_user_ids, try_assign, hub_load, last_assigned,
}

module _ (db : Db) where
  before_trans :
      (ss : List Strategy) (a b c : Availability)
      → before db ss a b ≡ true
      → before db ss b c ≡ true
      → before db ss a c ≡ true
  unfolding before
  before_trans [] a b c h k = ground arith
  before_trans (availability_aware ∷ ss) a b c h k = ground (arith, before_trans ss a b c)
  before_trans (least_loaded ∷ ss) a b c h k = ground (arith, before_trans ss a b c)
  before_trans (round_robin ∷ ss) a b c h k = ground (arith, before_trans ss a b c)

  before_irrefl : (ss : List Strategy) (a : Availability) → before db ss a a ≡ false
  unfolding before
  before_irrefl [] a = ground arith
  before_irrefl (availability_aware ∷ ss) a = ground (arith, before_irrefl ss a)
  before_irrefl (least_loaded ∷ ss) a = ground (arith, before_irrefl ss a)
  before_irrefl (round_robin ∷ ss) a = ground (arith, before_irrefl ss a)

  before_asym :
      (ss : List Strategy) (a b : Availability) → before db ss a b ≡ true → before db ss b a ≡ false
  unfolding before
  before_asym [] a b h = ground arith
  before_asym (availability_aware ∷ ss) a b h = ground (arith, before_asym ss a b)
  before_asym (least_loaded ∷ ss) a b h = ground (arith, before_asym ss a b)
  before_asym (round_robin ∷ ss) a b h = ground (arith, before_asym ss a b)

  -- Rows that are not before one another, in a row.
  before_cotrans :
      (ss : List Strategy) (a b c : Availability)
      → before db ss a b ≡ false
      → before db ss b c ≡ false
      → before db ss a c ≡ false
  unfolding before
  before_cotrans [] a b c h k = ground arith
  before_cotrans (availability_aware ∷ ss) a b c h k = ground (arith, before_cotrans ss a b c)
  before_cotrans (least_loaded ∷ ss) a b c h k = ground (arith, before_cotrans ss a b c)
  before_cotrans (round_robin ∷ ss) a b c h k = ground (arith, before_cotrans ss a b c)

  -- No row of the list is before the given one.
  abbrev pub NoneBefore : List Strategy → Availability → List Availability → Type 0
  NoneBefore ss m = All (λ b. before db ss b m ≡ false)

  least-better :
      (ss : List Strategy) (a b : Availability) (bs : List Availability)
      → before db ss b a ≡ true
      → least db ss a (b ∷ bs) ≡ least db ss b bs
  unfolding least
  least-better ss a b bs h = rw h refl

  least-worse :
      (ss : List Strategy) (a b : Availability) (bs : List Availability)
      → before db ss b a ≡ false
      → least db ss a (b ∷ bs) ≡ least db ss a bs
  unfolding least
  least-worse ss a b bs h = rw h refl

  least-nil : (ss : List Strategy) (a : Availability) → least db ss a [] ≡ a
  unfolding least
  least-nil ss a = refl

  least-NoneBefore :
      (ss : List Strategy) (a : Availability) (rows : List Availability)
      → NoneBefore ss (least db ss a rows) (a ∷ rows)
  least-NoneBefore ss a [] =
      subst (λ m. NoneBefore ss m (a ∷ [])) (sym (least-nil ss a)) (before_irrefl ss a, tt)
  least-NoneBefore ss a (b ∷ bs) = elim (Bool-cases (before db ss b a)) [
    | inl better ↦
        let (first, rest) = least-NoneBefore ss b bs in
        subst (λ m. NoneBefore ss m (a ∷ b ∷ bs)) (sym (least-better ss a b bs better))
          (before_cotrans ss a b _ (before_asym ss b a better) first, (first, rest))
    | inr worse ↦
        let (first, rest) = least-NoneBefore ss a bs in
        subst (λ m. NoneBefore ss m (a ∷ b ∷ bs)) (sym (least-worse ss a b bs worse))
          (first, (before_cotrans ss b a _ worse first, rest))
  ]

  All-least :
      (P : Availability → Type 0) (ss : List Strategy) (a : Availability) (rows : List Availability)
      → All P (a ∷ rows)
      → P (least db ss a rows)
  unfolding least
  All-least P ss a [] h = h.0
  All-least P ss a (b ∷ bs) (pa, (pb, ps)) = elim (Bool-cases (before db ss b a)) [
    | inl better ↦ rw better (All-least P ss b bs (pb, ps))
    | inr worse ↦ rw worse (All-least P ss a bs (pa, ps))
  ]

-- A row that may be chosen: of the tenant and the pool, and assignable now.
abbrev pub may_take : ℕ → List ℕ → Now → Availability → Bool
may_take tenant user_ids n a = a.tenant == tenant && (is_in a.user user_ids && is_assignable n a)

-- The first row comes before the second by the chain: it has more capacity left, a smaller load of
-- emails and tickets, or the older last assignment, at the first of these in which they differ, and
-- otherwise the smaller key of its user.
abbrev pub comes_first : Db → List Strategy → Availability → Availability → Bool
comes_first db [] a b = leb a.user b.user
comes_first db (availability_aware ∷ ss) a b =
    let left = a.max_concurrent_tickets - a.current_ticket_count in
    let other = b.max_concurrent_tickets - b.current_ticket_count in
    let rest = comes_first db ss a b in ltb other left || (left == other && rest)
comes_first db (least_loaded ∷ ss) a b =
    let load = hub_load a.tenant a.user db + a.current_ticket_count in
    let other = hub_load b.tenant b.user db + b.current_ticket_count in
    let rest = comes_first db ss a b in ltb load other || (load == other && rest)
comes_first db (round_robin ∷ ss) a b =
    let last = last_assigned a.tenant a.user db in
    let other = last_assigned b.tenant b.user db in
    let rest = comes_first db ss a b in ltb last other || (last == other && rest)

before-comes_first :
    (db : Db) (ss : List Strategy) (a b : Availability)
    → before db ss b a ≡ false
    → comes_first db ss a b ≡ true
unfolding before
before-comes_first db [] a b h = ground arith
before-comes_first db (availability_aware ∷ ss) a b h = ground (arith, before-comes_first db ss a b)
before-comes_first db (least_loaded ∷ ss) a b h = ground (arith, before-comes_first db ss a b)
before-comes_first db (round_robin ∷ ss) a b h = ground (arith, before-comes_first db ss a b)

-- What holds of the rows that pass the filters holds of every row that may be chosen.
All-may_take :
    (P : Availability → Type 0) (tenant : ℕ) (user_ids : List ℕ) (n : Now)
    → (rows : List Availability)
    → All P (keep (is_assignable n) (keep (λ a. a.tenant == tenant && is_in a.user user_ids) rows))
    → All (λ a. may_take tenant user_ids n a ≡ true → P a) rows
All-may_take P tenant user_ids n [] h = tt
All-may_take P tenant user_ids n (a ∷ rows) h =
    elim (Bool-cases (a.tenant == tenant && is_in a.user user_ids)) [
      | inr out ↦ (
        λ may. absurd (ground (arith, out, may)),
        All-may_take P tenant user_ids n rows (rw out at h),
      )
      | inl in_ ↦ elim (Bool-cases (is_assignable n a)) [
        | inl can ↦
            let k = rw (in_, can) at h in (λ may. k.0, All-may_take P tenant user_ids n rows k.1)
        | inr cannot ↦ (
          λ may. absurd (ground (arith, in_, cannot, may)),
          All-may_take P tenant user_ids n rows (rw (in_, cannot) at h),
        )
      ]
    ]

candidates-may_take :
    (tenant : ℕ) (user_ids : List ℕ) (n : Now) (rows : List Availability)
    → All
        (λ a. may_take tenant user_ids n a ≡ true)
        (keep (is_assignable n) (keep (λ a. a.tenant == tenant && is_in a.user user_ids) rows))
candidates-may_take tenant user_ids n [] = tt
candidates-may_take tenant user_ids n (a ∷ rows) =
    let rest = candidates-may_take tenant user_ids n rows in
    elim (Bool-cases (a.tenant == tenant && is_in a.user user_ids)) [
      | inr out ↦ rw out rest
      | inl in_ ↦ elim (Bool-cases (is_assignable n a)) [
        | inl can ↦ rw (in_, can) (ground (arith, in_, can), rest)
        | inr cannot ↦ rw (in_, cannot) rest
      ]
    ]

NoneBefore-comes_first :
    (db : Db) (ss : List Strategy) (a : Availability) (rows : List Availability)
    → NoneBefore db ss a rows
    → All (λ b. comes_first db ss a b ≡ true) rows
NoneBefore-comes_first db ss a [] h = tt
NoneBefore-comes_first db ss a (b ∷ rows) (first, rest) =
    (before-comes_first db ss a b first, NoneBefore-comes_first db ss a rows rest)

-- Nobody is chosen and no row may be, or a row that may be is, and comes first.
abbrev IsChoice : (Availability → Bool) → Db → List Strategy → List Availability → Type 0
IsChoice may db ss rows =
    ((choose db ss rows ≡ none) × (rows ≡ []))
    ⊎ ((a : Availability) × (choose db ss rows ≡ some a)
        × (may a ≡ true)
        × All (λ b. comes_first db ss a b ≡ true) rows)

choose-IsChoice :
    (db : Db) (ss : List Strategy) (may : Availability → Bool) (rows : List Availability)
    → All (λ a. may a ≡ true) rows
    → IsChoice may db ss rows
choose-IsChoice db ss may [] h = inl (refl, refl)
choose-IsChoice db ss may (a ∷ rows) h =
    let m = least db ss a rows in
    inr (
      m,
      refl,
      All-least db (λ a. may a ≡ true) ss a rows h,
      NoneBefore-comes_first db ss m (a ∷ rows) (least-NoneBefore db ss a rows),
    )

-- An agent is chosen if and only if one of the tenant and the pool is assignable; the agent who is
-- chosen is such a one, and comes before every other such agent by the chain of strategies, with the
-- user's key last.
pub select_agent-comes_first :
    (tenant : ℕ) (user_ids : List ℕ) (ss : List Strategy) (n : Now) (db : Db)
    → ((select_agent tenant user_ids ss n db ≡ none)
        × All (λ b. may_take tenant user_ids n b ≡ true → ⊥) db.availability)
      ⊎ ((a : Availability) × (select_agent tenant user_ids ss n db ≡ some a)
          × (may_take tenant user_ids n a ≡ true)
          × All
              (λ b. may_take tenant user_ids n b ≡ true → comes_first db ss a b ≡ true)
              db.availability)
unfolding select_agent candidates
select_agent-comes_first tenant user_ids ss n db =
    let rows =
      keep (is_assignable n)
        (keep (λ a. a.tenant == tenant && is_in a.user user_ids) db.availability) in
    elim (choose-IsChoice db ss (may_take tenant user_ids n) rows
      (candidates-may_take tenant user_ids n db.availability)) [
        | inl (nobody, empty) ↦ inl (
          nobody,
          All-may_take (λ b. ⊥) tenant user_ids n db.availability
              (subst (All (λ b. ⊥)) (sym empty) tt),
        )
        | inr (a, chosen, may, first) ↦ inr (
          a,
          chosen,
          may,
          All-may_take (λ b. comes_first db ss a b ≡ true) tenant user_ids n db.availability first,
        )
      ]

try_assign-none :
    (pools : Pools) (ss : List Strategy) (e : HubEmail) (actor : Option ℕ) (n : Now) (db : Db)
    → select_agent e.tenant (candidate_user_ids pools e) ss n db ≡ none
    → try_assign pools ss e actor n db ≡ some (none, db)
unfolding try_assign
try_assign-none pools ss e actor n db h = rw (h, try_assign) refl

try_assign-some :
    (pools : Pools) (ss : List Strategy) (e : HubEmail) (actor : Option ℕ) (n : Now) (db db' : Db)
    → (a : Availability) → (given : Bool)
    → select_agent e.tenant (candidate_user_ids pools e) ss n db ≡ some a
    → assign_to e a.user Reason.auto actor true n db ≡ some (given, db')
    → try_assign pools ss e actor n db ≡ some (if given then some a.user else none, db')
unfolding try_assign
try_assign-some pools ss e actor n db db' a given h k = rw (h, try_assign, k) refl

-- An email whose row is not new or has an assignee is left as it is by `try_assign`, from any
-- copy of the row and whoever would be chosen.
try_assign_taken :
    (pools : Pools) (ss : List Strategy) (e row : HubEmail) (actor : Option ℕ) (n : Now) (db : Db)
    → find e.pk db.emails ≡ some row
    → is_free row ≡ false
    → try_assign pools ss e actor n db ≡ some (none, db)
try_assign_taken pools ss e row actor n db h taken =
    elim (select_agent-comes_first e.tenant (candidate_user_ids pools e) ss n db) [
      | inl (nobody, empty) ↦ try_assign-none pools ss e actor n db nobody
      | inr (a, chosen, may, first) ↦
          try_assign-some pools ss e actor n db db a false chosen
            (assign_to_taken e row db h a.user Reason.auto actor true n taken)
    ]
