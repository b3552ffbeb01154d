-- ===== src/Tickets/Links/Search.antt =====
-- The search of `_creates_circular_dependency` ends and decides whether a chain of blocks exists
-- (apps/tickets/models.py).
use kanzan.Prelude.{
  ℕ, zero, suc, ◌+◌, ◌≤◌, ◌<◌, ◌≡◌, refl, ◌⊎◌, inl, inr, Bool, true, false, ◌&&◌, ◌||◌, not, Option,
  some, List, [], ◌∷◌, ◌++◌, ◌==◌, is_in, keep, length, arith, Bool-cases,
}
use kanzan.Tickets.Links.{
  Link, NewLink, is_blocks, blocked_from, search, direction, creates_circular_dependency,
}

-- One ticket blocks another.
abbrev pub Edge : List Link → ℕ → ℕ → Type 0
Edge links u v = is_in v (blocked_from links u) ≡ true

-- A chain of tickets, each of which blocks the next.
pub data Chain (links : List Link) : ℕ → ℕ → Type 0 where
  here : {u : ℕ} → Chain links u u
  step : {u v w : ℕ} → Edge links u v → Chain links v w → Chain links u w

pub Chain-append :
    {links : List Link} {u v w : ℕ} → Chain links u v → Chain links v w → Chain links u w
Chain-append here q = q
Chain-append (step e p) q = step e (Chain-append p q)

is_in-append : (k : ℕ) (xs ys : List ℕ) → is_in k (xs ++ ys) ≡ (is_in k xs || is_in k ys)
is_in-append k [] ys = refl
is_in-append k (x ∷ xs) ys = ground (arith, is_in-append k xs ys)

length-append : (xs ys : List ℕ) → length (xs ++ ys) ≡ length xs + length ys
length-append [] ys = omega arith
length-append (x ∷ xs) ys = omega (arith, length-append xs ys)

-- The links that the search may still follow.
abbrev unfollowed : List Link → List ℕ → ℕ
unfollowed links visited =
    length (keep (λ l. is_blocks l.link_type && not (is_in l.source visited)) links)

unfollowed-visit :
    (links : List Link) (visited : List ℕ) (c : ℕ)
    → is_in c visited ≡ false
    → unfollowed links visited ≡ unfollowed links (c ∷ visited) + length (blocked_from links c)
unfollowed-visit [] visited c h = refl
unfollowed-visit (l ∷ links) visited c h = ground (arith, unfollowed-visit links visited c h)

unfollowed-le : (links : List Link) (visited : List ℕ) → unfollowed links visited ≤ length links
unfollowed-le [] visited = omega arith
unfollowed-le (l ∷ links) visited = ground (arith, unfollowed-le links visited)

module _ (links : List Link) (start stop : ℕ) where
  -- What a ticket that was visited blocks was visited or waits in the queue.
  abbrev Closed : List ℕ → List ℕ → Type 0
  Closed visited queue =
      (u v : ℕ)
      → is_in u visited ≡ true
      → Edge links u v
      → (is_in v visited || is_in v queue) ≡ true

  record Inv (visited queue : List ℕ) : Type 0 where
    sound : (v : ℕ) → is_in v queue ≡ true → Chain links start v
    closed : Closed visited queue
    begun : (is_in start visited || is_in start queue) ≡ true
    unfound : is_in stop visited ≡ false

  Inv-start : Inv [] (start ∷ [])
  Inv-start = record {
    sound = λ v m. let e : start ≡ v = ground arith in rw⁻¹ e here;
    closed = λ u v m e. ground arith;
    begun = ground arith;
    unfound = refl;
  }

  Inv-seen :
      (c : ℕ) (visited queue : List ℕ)
      → is_in c visited ≡ true
      → Inv visited (c ∷ queue)
      → Inv visited queue
  Inv-seen c visited queue seen h = record {
    sound = λ v m. h.sound v (ground arith);
    closed = λ u v m e. ground (arith, h.closed u v);
    begun = ground (arith, h.begun);
    unfound = h.unfound;
  }

  Inv-visit :
      (c : ℕ) (visited queue : List ℕ)
      → (c == stop) ≡ false
      → Inv visited (c ∷ queue)
      → Inv (c ∷ visited) (queue ++ blocked_from links c)
  Inv-visit c visited queue other h = record {
    sound = λ v m. elim (Bool-cases (is_in v queue)) [
      | inl waiting ↦ h.sound v (ground arith)
      | inr out ↦
          Chain-append (h.sound c (ground arith))
            (step (ground (arith, is_in-append v queue (blocked_from links c))) here)
    ];
    closed = λ u v m e. elim (Bool-cases (c == u)) [
      | inl same ↦
          let at : c ≡ u = ground arith in
          let edge : Edge links c v = rw at e in
          ground (arith, is_in-append v queue (blocked_from links c))
      | inr old ↦
          let k = h.closed u v (ground arith) e in
          ground (arith, is_in-append v queue (blocked_from links c))
    ];
    begun = ground (arith, h.begun, is_in-append start queue (blocked_from links c));
    unfound = ground (arith, h.unfound);
  }

  -- With an empty queue the tickets visited are closed under chains.
  Chain-visited :
      (visited : List ℕ) {u w : ℕ}
      → Closed visited []
      → Chain links u w
      → is_in u visited ≡ true
      → is_in w visited ≡ true
  Chain-visited visited closed here m = m
  Chain-visited visited closed (step {u} {v} e p) m =
      Chain-visited visited closed p (let k = closed u v m e in ground arith)

  abbrev pub Decides : Option Bool → Type 0
  Decides r =
      ((r ≡ some true) × Chain links start stop) ⊎ ((r ≡ some false) × ¬ Chain links start stop)

  search-Decides :
      (rounds : ℕ) (visited queue : List ℕ)
      → length queue + unfollowed links visited < rounds
      → Inv visited queue
      → Decides (search rounds links stop visited queue)
  unfolding search
  search-Decides zero visited queue enough h = elim enough [ ]
  search-Decides (suc rounds) visited [] enough h = inr (
    refl,
    λ p.
        let m = Chain-visited visited h.closed p (let k = h.begun in ground arith) in
        let k = h.unfound in ground arith,
  )
  search-Decides (suc rounds) visited (c ∷ queue) enough h = elim (Bool-cases (c == stop)) [
    | inl found ↦
        let at : c ≡ stop = ground arith in inl (rw found refl, rw⁻¹ at (h.sound c (ground arith)))
    | inr other ↦ elim (Bool-cases (is_in c visited)) [
      | inl seen ↦
          rw (other, seen)
            (search-Decides rounds visited queue (omega arith) (Inv-seen c visited queue seen h))
      | inr fresh ↦
          rw (other, fresh)
            (search-Decides rounds (c ∷ visited) (queue ++ blocked_from links c)
              (omega (
                arith,
                unfollowed-visit links visited c fresh,
                length-append queue (blocked_from links c),
              ))
              (Inv-visit c visited queue other h))
    ]
  ]

  pub search-Decides_start : Decides (search (length links + 2) links stop [] (start ∷ []))
  search-Decides_start =
      search-Decides (length links + 2) [] (start ∷ []) (omega (arith, unfollowed-le links []))
        Inv-start

-- For a link that names two tickets `_creates_circular_dependency` returns, within as many rounds
-- as there are links and two more, and says whether a chain of blocks leads from one ticket to the
-- other: from the target to the source for a `blocks` link, else from the source to the target.
pub creates_circular_dependency_decides :
    (links : List Link) (l : NewLink) (s t : ℕ)
    → l.source ≡ some s
    → l.target ≡ some t
    → let (start, stop) = direction l.link_type s t in
      ((creates_circular_dependency links l ≡ some true) × Chain links start stop)
      ⊎ ((creates_circular_dependency links l ≡ some false) × ¬ Chain links start stop)
unfolding creates_circular_dependency
creates_circular_dependency_decides links l s t from to =
    let d = direction l.link_type s t in
    rw (from, to, creates_circular_dependency) (search-Decides_start links d.0 d.1)
