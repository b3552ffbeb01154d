-- ===== src/Tickets/Links/Acyclic.antt =====
-- Links that pass the check for circular blocking (apps/tickets/models.py).
use kanzan.Prelude.{
  ℕ, ◌≡◌, ◌≢◌, refl, ◌⊎◌, inl, inr, true, false, some, List, [], ◌∷◌, arith, Bool-cases, All,
}
use kanzan.Tickets.Links.{
  Link, NewLink, LinkType, blocks, is_blocks, direction, creates_circular_dependency, clean, valid,
}
use kanzan.Tickets.Links.Search.{
  Edge, Chain, here, step, Chain-append, creates_circular_dependency_decides,
}

-- No ticket blocks itself, directly or through others, by links that are stored as `blocks`.
abbrev pub IsAcyclic : List Link → Type 0
IsAcyclic links = (u v : ℕ) → Edge links u v → ¬ Chain links v u

Edge-cases :
    (l : Link) (links : List Link) (u v : ℕ)
    → Edge (l ∷ links) u v
    → Edge links u v ⊎ ((u ≡ l.source) × (l.target ≡ v))
Edge-cases l links u v e = ground arith

module _ (l : Link) (links : List Link) where
  -- A chain that uses the new link leads to its source and on from its target.
  Chain-cases :
      {u w : ℕ}
      → Chain (l ∷ links) u w
      → Chain links u w ⊎ (Chain links u l.source × Chain links l.target w)
  Chain-cases here = inl here
  Chain-cases (step {u} {v} e p) = elim (Edge-cases l links u v e) [
    | inl old ↦ elim (Chain-cases p) [ inl q ↦ inl (step old q) | inr (q, r) ↦ inr (step old q, r) ]
    | inr (from, to) ↦ elim (Chain-cases p) [
      | inl q ↦ inr (rw from here, rw to q)
      | inr (_, r) ↦ inr (rw from here, r)
    ]
  ]

  IsAcyclic-cons : IsAcyclic links → ¬ Chain links l.target l.source → IsAcyclic (l ∷ links)
  IsAcyclic-cons h no_way u v e p = elim (Edge-cases l links u v e) [
    | inl old ↦ elim (Chain-cases p) [
      | inl q ↦ h u v old q
      | inr (q, r) ↦ no_way (Chain-append r (step old q))
    ]
    | inr (from, to) ↦ elim (Chain-cases p) [
      | inl q ↦ no_way (rw (to, ← from) q)
      | inr (_, r) ↦ no_way (rw (← from) r)
    ]
  ]

-- A link that does not block changes no chain.
Chain-other :
    (l : Link) (links : List Link) {u w : ℕ}
    → is_blocks l.link_type ≡ false
    → Chain (l ∷ links) u w
    → Chain links u w
Chain-other l links other here = here
Chain-other l links other (step {u} {v} e p) =
    let old : Edge links u v = ground arith in step old (Chain-other l links other p)

IsAcyclic-other :
    (l : Link) (links : List Link)
    → is_blocks l.link_type ≡ false
    → IsAcyclic links
    → IsAcyclic (l ∷ links)
IsAcyclic-other l links other h u v e p =
    let old : Edge links u v = ground arith in h u v old (Chain-other l links other p)

clean-valid :
    (tenant_of : ℕ → ℕ) (links : List Link) (l : NewLink)
    → is_blocks l.link_type ≡ true
    → clean tenant_of links l ≡ some valid
    → creates_circular_dependency links l ≡ some true
    → ⊥
unfolding clean
clean-valid tenant_of links l b h c = ground arith

direction-blocks : (k : LinkType) (s t : ℕ) → is_blocks k ≡ true → direction k s t ≡ (t, s)
direction-blocks k s t b = ground arith

-- If no ticket blocks itself, directly or through others, by links that are stored as `blocks`, then
-- none does by such links after a link that `clean` accepts is added, of whatever type. Links that are
-- stored as `blocked_by` do not count.
pub clean-IsAcyclic :
    (tenant_of : ℕ → ℕ) (links : List Link) (s t : ℕ) (k : LinkType)
    → IsAcyclic links
    → clean tenant_of links (record { source = some s; target = some t; link_type = k })
      ≡ some valid
    → IsAcyclic (record { source = s; target = t; link_type = k } ∷ links)
clean-IsAcyclic tenant_of links s t k h accepted =
    let l : NewLink = record { source = some s; target = some t; link_type = k } in
    elim (Bool-cases (is_blocks k)) [
      | inr other ↦ IsAcyclic-other _ links other h
      | inl b ↦
          IsAcyclic-cons _ links h
            (elim (creates_circular_dependency_decides links l s t refl refl) [
              | inl (yes_, p) ↦ absurd (clean-valid tenant_of links l b accepted yes_)
              | inr (no_, p) ↦ λ q. p (rw (direction-blocks k s t b) q)
            ])
    ]

abbrev NoneBlocks : List Link → Type 0
NoneBlocks = All (λ l. is_blocks l.link_type ≡ false)

no-Edge : (links : List Link) (u v : ℕ) → NoneBlocks links → ¬ Edge links u v
no-Edge [] u v h e = ground arith
no-Edge (l ∷ links) u v h e = no-Edge links u v h.1 (ground arith)

no-Chain : (links : List Link) {s t : ℕ} → NoneBlocks links → s ≢ t → ¬ Chain links t s
no-Chain links h other here = other refl
no-Chain links h other (step {u} {v} e p) = no-Edge links u v h e

-- The search follows only links that are stored as `blocks`: where none is, a `blocks` link between
-- two tickets of one tenant is accepted, also if the opposite is stored as `blocked_by`.
pub clean_ignores_blocked_by :
    (tenant_of : ℕ → ℕ) (links : List Link) (s t : ℕ)
    → All (λ l. is_blocks l.link_type ≡ false) links
    → tenant_of s ≡ tenant_of t
    → s ≢ t
    → clean tenant_of links (record { source = some s; target = some t; link_type = blocks })
      ≡ some valid
unfolding clean
clean_ignores_blocked_by tenant_of links s t none_blocks same other =
    let l : NewLink = record { source = some s; target = some t; link_type = blocks } in
    elim (creates_circular_dependency_decides links l s t refl refl) [
      | inl (yes_, p) ↦ absurd (no-Chain links none_blocks other p)
      | inr (no_, p) ↦ ground arith
    ]
