-- ===== src/Hub/Routing/CatchAll.antt =====
-- A rule that every email meets (apps/inbox_hub/routing.py).
use kanzan.Prelude.{◌≡◌, ◌⊎◌, refl, Bool, true, Option, none, some, List, [], ◌∷◌}
use kanzan.Hub.Routing.Conditions.{Text, Email}
use kanzan.Hub.Routing.Conditions.Means.{rule_matches_all}
use kanzan.Hub.Routing.{
  Department, Rule, undecided, merge, resolve, evaluate_loop, evaluate, matches_email,
}

-- Where the conditions of the first rule have only a blank pattern, or only keys that no test reads,
-- and the rule stops the search, it alone decides for every email, whatever rules follow; a department
-- that it lacks is the fallback, and a queue that it lacks is the default queue of the department so
-- found, if there is one.
pub evaluate_catch_all :
    (lower : Text → Text) (search : Text → Text → Option Bool) (r : Rule) (rs : List Rule)
    (fallback : Option Department) (e : Email)
    → r.stop_on_match ≡ true
    → r.conditions.sender_domain ≡ none
    → r.conditions.recipient_local ≡ none
    → r.conditions.keyword ≡ none
    → (r.conditions.subject_regex ≡ some [])
      ⊎ ((r.conditions.subject_regex ≡ none) × (r.conditions.other_keys ≡ true))
    → evaluate (matches_email lower search e) (r ∷ rs) fallback
      ≡ resolve fallback (merge r undecided)
unfolding evaluate matches_email evaluate_loop
evaluate_catch_all lower search r rs fallback e stops d l k h =
    rw (rule_matches_all lower search r.conditions e d l k h, stops) refl
