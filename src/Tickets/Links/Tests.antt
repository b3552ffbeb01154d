-- ===== src/Tickets/Links/Tests.antt =====
-- Runs of the check for circular blocking at concrete links.
use kanzan.Prelude.{ℕ, ◌≡◌, ◌⊎◌, refl, true, false, some, List, [], ◌∷◌, arith}
use kanzan.Tickets.Links.{
  blocks, blocked_by, Link, NewLink, search, creates_circular_dependency, valid, clean,
}
use kanzan.Tickets.Links.Search.{Chain, creates_circular_dependency_decides}
use kanzan.Tickets.Links.Acyclic.{IsAcyclic, clean-IsAcyclic, clean_ignores_blocked_by}

one_tenant : ℕ → ℕ
one_tenant ticket = 7

abbrev first_link : List Link
first_link = record { source = 1; target = 2; link_type = blocks } ∷ []

none-IsAcyclic : IsAcyclic []
none-IsAcyclic u v e p = cc

first_valid :
    clean one_tenant [] (record { source = some 1; target = some 2; link_type = blocks })
    ≡ some valid
unfolding clean creates_circular_dependency search one_tenant
first_valid = refl

first_link-IsAcyclic : IsAcyclic first_link
first_link-IsAcyclic = clean-IsAcyclic one_tenant [] 1 2 blocks none-IsAcyclic first_valid

second_valid :
    clean one_tenant first_link (record { source = some 3; target = some 1; link_type = blocks })
    ≡ some valid
unfolding clean creates_circular_dependency search one_tenant
second_valid = refl

clean-IsAcyclic_example :
    IsAcyclic (record { source = 3; target = 1; link_type = blocks } ∷ first_link)
clean-IsAcyclic_example =
    clean-IsAcyclic one_tenant first_link 3 1 blocks first_link-IsAcyclic second_valid

abbrev closing_link : NewLink
closing_link = record { source = some 2; target = some 1; link_type = blocks }

creates_circular_dependency_decides_example :
    ((creates_circular_dependency first_link closing_link ≡ some true) × Chain first_link 1 2)
    ⊎ ((creates_circular_dependency first_link closing_link ≡ some false) × ¬ Chain first_link 1 2)
creates_circular_dependency_decides_example =
    creates_circular_dependency_decides first_link closing_link 2 1 refl refl

abbrev reversed_link : List Link
reversed_link = record { source = 2; target = 1; link_type = blocked_by } ∷ []

clean_ignores_blocked_by_example :
    clean one_tenant reversed_link (record { source = some 2; target = some 1; link_type = blocks })
    ≡ some valid
unfolding one_tenant
clean_ignores_blocked_by_example =
    clean_ignores_blocked_by one_tenant reversed_link 2 1 (ground arith) refl (omega arith)
