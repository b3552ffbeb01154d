-- ===== src/Tickets/Links.antt =====
-- apps/tickets/models.py: links between tickets, and the check for circular blocking.
pub mod Search
pub mod Acyclic
mod Tests
use kanzan.Prelude.{
  ℕ, zero, suc, ◌+◌, Bool, true, false, ◌&&◌, ◌||◌, not, Option, none, some, List, [], ◌∷◌, ◌++◌,
  ◌==◌, if◌then◌else◌, is_in, keep, map, length,
}

-- `TicketLink.LinkType`
pub data LinkType : Type 0 where
  duplicate_of related_to blocks blocked_by : LinkType

abbrev pub is_blocks : LinkType → Bool
is_blocks blocks = true
is_blocks _ = false

-- A row of `TicketLink`.
pub record Link : Type 0 where
  pub source : ℕ
  pub target : ℕ
  pub link_type : LinkType

-- A link before it is saved: a ticket may be missing.
pub record NewLink : Type 0 where
  pub source : Option ℕ
  pub target : Option ℕ
  pub link_type : LinkType

-- `filter(source_ticket_id=current, link_type=BLOCKS).values_list("target_ticket_id")`
abbrev pub blocked_from : List Link → ℕ → List ℕ
blocked_from links current =
    map (λ (l : Link). l.target) (keep (λ l. is_blocks l.link_type && l.source == current) links)

-- The `while` loop, over the set `visited` and the list `queue`; `none` when the rounds run out.
pub search : ℕ → List Link → ℕ → List ℕ → List ℕ → Option Bool
search zero links end visited queue = none
search (suc rounds) links end visited [] = some false
search (suc rounds) links end visited (current ∷ queue) =
    let seen = search rounds links end visited queue in
    let fresh = search rounds links end (current ∷ visited) (queue ++ blocked_from links current) in
    if current == end then some true else if is_in current visited then seen else fresh

-- The direction of the search: where it starts, and what it must not find.
abbrev pub direction : LinkType → ℕ → ℕ → ℕ × ℕ
direction blocks source target = (target, source)
direction _ source target = (source, target)

-- `_creates_circular_dependency`
pub creates_circular_dependency : List Link → NewLink → Option Bool
unfolding search
creates_circular_dependency links l = elim l.source [
  | none ↦ some false
  | some source ↦ elim l.target [
    | none ↦ some false
    | some target ↦
        let d = direction l.link_type source target in
        search (length links + 2) links d.1 [] (d.0 ∷ [])
  ]
]

pub data Cleaned : Type 0 where
  valid other_tenant circular : Cleaned

-- Both tickets are there and belong to two tenants.
abbrev pub crosses_tenants : (ℕ → ℕ) → Option ℕ → Option ℕ → Bool
crosses_tenants tenant_of none target = false
crosses_tenants tenant_of (some s) none = false
crosses_tenants tenant_of (some s) (some t) = not (tenant_of s == tenant_of t)

abbrev pub is_dependency : LinkType → Bool
is_dependency blocks = true
is_dependency blocked_by = true
is_dependency _ = false

-- `clean`
pub clean : (ℕ → ℕ) → List Link → NewLink → Option Cleaned
clean tenant_of links l =
    if crosses_tenants tenant_of l.source l.target
    then some other_tenant
    else if is_dependency l.link_type
    then elim (creates_circular_dependency links l) [
      | none ↦ none
      | some true ↦ some circular
      | some false ↦ some valid
    ]
    else some valid
