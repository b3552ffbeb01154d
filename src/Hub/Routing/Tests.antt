-- ===== src/Hub/Routing/Tests.antt =====
-- Runs of the routing engine.
use kanzan.Prelude.{
  ℕ, ◌≡◌, ◌↔◌, refl, inl, false, Bool, true, Option, none, some, List, [], ◌∷◌, ◌==◌, not,
}
use kanzan.Hub.Store.{Priority}
use kanzan.Hub.Routing.{
  Department, Rule, evaluate, set_or, resolve, merge, undecided, matches_email, resolve_queue,
}
use kanzan.Hub.Routing.Conditions.{Text, Match, Email}
use kanzan.Hub.Routing.Conditions.{is_empty, rule_matches}
use kanzan.Hub.Routing.Conditions.Means.{
  DomainMeans, LocalMeans, KeywordMeans, RegexMeans, rule_matches_iff,
}
use kanzan.Hub.Routing.CatchAll.{evaluate_catch_all}
use kanzan.Hub.Routing.Rules.{applied, last_set, evaluate-last}

abbrev sales : Department
sales = record { id = 3; default_queue = some 40; is_active = true }

-- A blank pattern, and no other key.
abbrev unconditional : Match
unconditional = record {
  sender_domain = none;
  recipient_local = none;
  keyword = none;
  subject_regex = some [];
  other_keys = false;
}

abbrev rule : ℕ → Option Department → Option Priority → Bool → Rule
rule id department priority stop = record {
  id = id;
  department = department;
  queue = none;
  category = "billing";
  priority = priority;
  stop_on_match = stop;
  conditions = unconditional;
}

abbrev rules : List Rule
rules =
    rule 1 none (some Priority.high) false
    ∷ rule 2 (some sales) none true
    ∷ rule 3 none (some Priority.low) false
    ∷ []

abbrev matches : Rule → Bool
matches r = not (r.id == 4)

evaluate-last_example :
    let d = evaluate matches rules none in
    let used = applied matches rules in
    (d.department ≡ set_or (last_set (λ r. r.department) used none) none)
    × (d.priority ≡ last_set (λ r. r.priority) used none)
    × (d.queue ≡ resolve_queue d.department (last_set (λ r. r.queue) used none))
evaluate-last_example = evaluate-last matches rules none

-- An email from a@b.c to s@d, with the subject "hi"; texts are in lower case.
abbrev email : Email
email = record {
  sender_email = b'a' ∷ b'@' ∷ b'b' ∷ b'.' ∷ b'c' ∷ [];
  recipient_email = b's' ∷ b'@' ∷ b'd' ∷ [];
  subject = b'h' ∷ b'i' ∷ [];
  body = [];
}

-- Emails from the domain c.
abbrev from_domain : Match
from_domain = record {
  sender_domain = some ((b'c' ∷ []) ∷ []);
  recipient_local = some ((b's' ∷ []) ∷ []);
  keyword = none;
  subject_regex = none;
  other_keys = false;
}

lower : Text → Text
lower s = s

never : Text → Text → Option Bool
never p s = some false

rule_matches_iff_example : (rule_matches lower never from_domain email ≡ true) ↔ (
    (is_empty lower never from_domain ≡ false)
    × DomainMeans lower never from_domain.sender_domain email
    × LocalMeans lower never from_domain.recipient_local email
    × KeywordMeans lower never from_domain.keyword email
    × RegexMeans lower never from_domain.subject_regex email)
rule_matches_iff_example = rule_matches_iff lower never from_domain email

evaluate_catch_all_example :
    evaluate (matches_email lower never email) (rule 2 (some sales) none true ∷ rules) none
    ≡ resolve none (merge (rule 2 (some sales) none true) undecided)
evaluate_catch_all_example =
    evaluate_catch_all lower never (rule 2 (some sales) none true) rules none email refl refl refl
      refl (inl refl)
