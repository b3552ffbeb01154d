-- ===== src/Hub/Routing/Rules.antt =====
-- Which rules decide (apps/inbox_hub/routing.py).
use kanzan.Prelude.{
  ◌≡◌, refl, ap, Bool, Option, none, List, [], ◌∷◌, if◌then◌else◌, Bool-cases, inl, inr,
}
use kanzan.Hub.Routing.{
  Department, Rule, Decision, set_or, merge, undecided, evaluate_loop, resolve, resolve_queue,
  evaluate,
}

-- The rules that match, up to the first of them that stops.
pub applied : (Rule → Bool) → List Rule → List Rule
applied matches [] = []
applied matches (r ∷ rs) =
    let rest = applied matches rs in
    if matches r then if r.stop_on_match then r ∷ [] else r ∷ rest else rest

-- The last value that one of the rules gives, or the one before them all.
abbrev pub last_set {ℓ} : {A : Type ℓ} → (Rule → Option A) → List Rule → Option A → Option A
last_set f [] old = old
last_set f (r ∷ rs) old = last_set f rs (set_or (f r) old)

-- The three settings of a decision are the last ones of a list of rules.
abbrev IsLast : List Rule → Decision → Decision → Type 0
IsLast rs d d' =
    (d'.department ≡ last_set (λ r. r.department) rs d.department)
    × (d'.queue ≡ last_set (λ r. r.queue) rs d.queue)
    × (d'.priority ≡ last_set (λ r. r.priority) rs d.priority)

evaluate_loop-IsLast :
    (matches : Rule → Bool) (rs : List Rule) (d : Decision)
    → IsLast (applied matches rs) d (evaluate_loop matches rs d)
unfolding evaluate_loop applied
evaluate_loop-IsLast matches [] d = (refl, refl, refl)
evaluate_loop-IsLast matches (r ∷ rs) d = elim (Bool-cases (matches r)) [
  | inr no_match ↦ rw no_match (evaluate_loop-IsLast matches rs d)
  | inl matched ↦ elim (Bool-cases r.stop_on_match) [
    | inl stops ↦ rw (matched, stops) (refl, refl, refl)
    | inr goes_on ↦ rw (matched, goes_on) (evaluate_loop-IsLast matches rs (merge r d))
  ]
]

-- The department of a decision is the one of the last rule with a department among the rules that
-- match, up to the first of these that stops, or else the fallback; the priority is that of the
-- last such rule with a priority; the queue is that of the last such rule with a queue, or else
-- the default queue of the department.
pub evaluate-last :
    (matches : Rule → Bool) (rules : List Rule) (fallback : Option Department)
    → let d = evaluate matches rules fallback in
      let used = applied matches rules in
      (d.department ≡ set_or (last_set (λ r. r.department) used none) fallback)
      × (d.priority ≡ last_set (λ r. r.priority) used none)
      × (d.queue ≡ resolve_queue d.department (last_set (λ r. r.queue) used none))
unfolding evaluate
evaluate-last matches rules fallback =
    let (dep, q, p) = evaluate_loop-IsLast matches rules undecided in
    (
      ap (λ x. set_or x fallback) dep,
      p,
      ap (resolve_queue (resolve fallback (evaluate_loop matches rules undecided)).department) q,
    )
