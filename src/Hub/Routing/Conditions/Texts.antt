-- ===== src/Hub/Routing/Conditions/Texts.antt =====
-- What the tests on texts mean (apps/inbox_hub/routing.py).
use kanzan.Prelude.{
  ◌≡◌, ◌↔◌, ◌⊎◌, inl, inr, refl, ap, Bool, true, ◌||◌, List, [], ◌∷◌, ◌++◌, any, arith, Bool-cases,
}
use kanzan.Hub.Routing.Conditions.{Text, text_eq, starts_with, occurs, ends_with}

-- One of the items satisfies the predicate.
abbrev pub Exists {ℓ} : {A : Type ℓ} → (A → Type 0) → List A → Type 0
Exists P [] = ⊥
Exists P (a ∷ as_) = P a ⊎ Exists P as_

pub text_eq_iff : (s t : Text) → (text_eq s t ≡ true) ↔ (s ≡ t)
unfolding text_eq
text_eq_iff [] [] = (λ e. refl, λ e. refl)
text_eq_iff [] (d ∷ t) = (λ e. cc, λ e. cc)
text_eq_iff (c ∷ s) [] = (λ e. cc, λ e. cc)
text_eq_iff (c ∷ s) (d ∷ t) =
    (λ e. ground (arith, e, text_eq_iff s t), λ e. ground (arith, e, text_eq_iff s t))

-- A text that begins with the other one.
pub starts_with_iff : (k s : Text) → (starts_with k s ≡ true) ↔ ((post : Text) × (s ≡ k ++ post))
unfolding starts_with
starts_with_iff [] s = (λ e. (s, refl), λ e. refl)
starts_with_iff (c ∷ k) [] = (λ e. cc, λ (post, e). cc)
starts_with_iff (c ∷ k) (d ∷ s) = (
  λ e.
      let (post, rest) = (starts_with_iff k s).0 (ground (arith, e)) in
      (post, ground (arith, e, rest)),
  λ (post, e). ground (arith, e, (starts_with_iff k s).1 (post, ground (arith, e))),
)

-- A text in which the other one occurs, or with which it ends.
abbrev pub Occurs : Text → Text → Type 0
Occurs k s = (pre : Text) × (post : Text) × (s ≡ pre ++ (k ++ post))

abbrev pub EndsWith : Text → Text → Type 0
EndsWith t s = (pre : Text) × (s ≡ pre ++ t)

pub occurs_iff : (k s : Text) → (occurs k s ≡ true) ↔ Occurs k s
unfolding occurs
occurs_iff k [] = (
  λ e. let (post, at_start) = (starts_with_iff k []).0 e in ([], post, at_start),
  λ (pre, post, e).
      elim pre as (λ pre. [] ≡ pre ++ (k ++ post) → starts_with k [] ≡ true) [
        | [] ↦ λ e. (starts_with_iff k []).1 (post, e)
        | c ∷ pre ↦ λ e. cc
      ]
        e,
)
occurs_iff k (d ∷ s) = (
  λ e. elim (Bool-cases (starts_with k (d ∷ s))) [
    | inl now ↦ let (post, at_start) = (starts_with_iff k (d ∷ s)).0 now in ([], post, at_start)
    | inr later ↦
        let (pre, post, inside) = (occurs_iff k s).0 (ground (arith, e, later)) in
        (d ∷ pre, post, ap (λ t. d ∷ t) inside)
  ],
  λ (pre, post, e).
      elim pre as (λ pre. d ∷ s ≡ pre ++ (k ++ post) → starts_with k (d ∷ s) || occurs k s ≡ true) [
        | [] ↦ λ e. ground (arith, (starts_with_iff k (d ∷ s)).1 (post, e))
        | c ∷ pre ↦ λ e. ground (arith, (occurs_iff k s).1 (pre, post, ground (arith, e)))
      ]
        e,
)

pub ends_with_iff : (t s : Text) → (ends_with t s ≡ true) ↔ EndsWith t s
unfolding ends_with
ends_with_iff t [] = (
  λ e. ([], (text_eq_iff [] t).0 e),
  λ (pre, e).
      elim pre as (λ pre. [] ≡ pre ++ t → text_eq [] t ≡ true) [
        | [] ↦ λ e. (text_eq_iff [] t).1 e
        | c ∷ pre ↦ λ e. cc
      ]
        e,
)
ends_with_iff t (d ∷ s) = (
  λ e. elim (Bool-cases (text_eq (d ∷ s) t)) [
    | inl now ↦ ([], (text_eq_iff (d ∷ s) t).0 now)
    | inr later ↦
        let (pre, inside) = (ends_with_iff t s).0 (ground (arith, e, later)) in
        (d ∷ pre, ap (λ u. d ∷ u) inside)
  ],
  λ (pre, e).
      elim pre as (λ pre. d ∷ s ≡ pre ++ t → text_eq (d ∷ s) t || ends_with t s ≡ true) [
        | [] ↦ λ e. ground (arith, (text_eq_iff (d ∷ s) t).1 e)
        | c ∷ pre ↦ λ e. ground (arith, (ends_with_iff t s).1 (pre, ground (arith, e)))
      ]
        e,
)

-- A test of the items of a list, by what the test means.
pub any_iff {ℓ} :
    {A : Type ℓ} (p : A → Bool) (P : A → Type 0) (l : List A)
    → ((a : A) → (p a ≡ true) ↔ P a)
    → (any p l ≡ true) ↔ Exists P l
any_iff p P [] h = (λ e. cc, λ e. absurd e)
any_iff p P (a ∷ l) h = (
  λ e. elim (Bool-cases (p a)) [
    | inl now ↦ inl ((h a).0 now)
    | inr later ↦ inr ((any_iff p P l h).0 (ground (arith, e, later)))
  ],
  λ e. elim e [
    | inl now ↦ ground (arith, (h a).1 now)
    | inr later ↦ ground (arith, (any_iff p P l h).1 later)
  ],
)
