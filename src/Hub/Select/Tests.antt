-- ===== src/Hub/Select/Tests.antt =====
-- Runs of the choice of an agent.
use kanzan.Prelude.{◌≡◌, ◌⊎◌, refl, none, some, List, [], ◌∷◌, false, true, All}
use kanzan.Hub.State.{State, same_state}
use kanzan.Hub.Store.{HubEmail, Availability, find}
use kanzan.Hub.Select.{Strategy, least_loaded, round_robin, select_agent, Pools}
use kanzan.Hub.Select.Least.{may_take, comes_first, select_agent-comes_first}
use kanzan.Hub.Assignment.Once.{is_free}
use kanzan.Hub.Tests.{email, rows, new_rows, present}

abbrev chain : List Strategy
chain = least_loaded ∷ round_robin ∷ []

select_agent-comes_first_example :
    ((select_agent 1 (7 ∷ 8 ∷ []) chain present new_rows ≡ none)
      × All (λ b. may_take 1 (7 ∷ 8 ∷ []) present b ≡ true → ⊥) new_rows.availability)
    ⊎ ((a : Availability) × (select_agent 1 (7 ∷ 8 ∷ []) chain present new_rows ≡ some a)
        × (may_take 1 (7 ∷ 8 ∷ []) present a ≡ true)
        × All
            (λ b. may_take 1 (7 ∷ 8 ∷ []) present b ≡ true → comes_first new_rows chain a b ≡ true)
            new_rows.availability)
select_agent-comes_first_example = select_agent-comes_first 1 (7 ∷ 8 ∷ []) chain present new_rows

abbrev pools : Pools
pools = record { memberships = (1, (3, 7)) ∷ (1, (3, 8)) ∷ []; queue_departments = []; agents = [] }

abbrev held : HubEmail
held = email State.assigned (some 7)

found_held : find 5 (rows held).emails ≡ some held
unfolding find
found_held = refl

not_free : is_free held ≡ false
unfolding same_state
not_free = refl
