-- ===== src/Hub/Routing/Conditions/Means.antt =====
-- Which emails a routing rule matches (apps/inbox_hub/routing.py).
use kanzan.Prelude.{
  ◌≡◌, ◌≢◌, ◌↔◌, ◌⊎◌, inl, inr, refl, Bool, true, false, ◌&&◌, ◌||◌, not, Option, none, some, List,
  [], ◌∷◌, any, map, keep, arith, Bool-cases, Option-cases,
}
use kanzan.Hub.Routing.Conditions.{
  Text, Match, Email, text_eq, occurs, ends_with, lstrip_at, is_blank, sender_domain_of,
  recipient_local_of, haystack, domain_clause, local_clause, keyword_clause, regex_clause, is_empty,
  rule_matches,
}
use kanzan.Hub.Routing.Conditions.Texts.{
  Exists, Occurs, EndsWith, text_eq_iff, occurs_iff, ends_with_iff, any_iff,
}

any-map {ℓ} :
    {A : Type ℓ} {B : Type ℓ} (p : B → Bool) (f : A → B) (l : List A)
    → any p (map f l) ≡ any (λ a. p (f a)) l
any-map p f [] = refl
any-map p f (a ∷ l) = ground (arith, any-map p f l)

any-keep {ℓ} :
    {A : Type ℓ} (p q : A → Bool) (l : List A) → any p (keep q l) ≡ any (λ a. q a && p a) l
any-keep p q [] = refl
any-keep p q (a ∷ l) = ground (arith, any-keep p q l)

is_blank_iff : (s : Text) → (is_blank s ≡ false) ↔ (s ≢ [])
is_blank_iff [] = (λ e. cc, λ h. absurd (h refl))
is_blank_iff (c ∷ s) = (λ e h. cc, λ h. refl)

-- A domain is the given one, or ends with a dot and the given one.
abbrev pub IsWithin : Text → Text → Type 0
IsWithin domain d = (d ≢ []) × ((domain ≡ d) ⊎ EndsWith (b'.' ∷ d) domain)

IsWithin-iff :
    (domain d : Text)
    → (not (is_blank d) && (text_eq domain d || ends_with (b'.' ∷ d) domain) ≡ true)
      ↔ IsWithin domain d
IsWithin-iff domain d = (
  λ e.
      let filled = (is_blank_iff d).0 (ground (arith, e)) in
      elim (Bool-cases (text_eq domain d)) [
        | inl same ↦ (filled, inl ((text_eq_iff domain d).0 same))
        | inr other ↦ (filled, inr ((ends_with_iff (b'.' ∷ d) domain).0 (ground (arith, e, other))))
      ],
  λ (filled, h).
      let not_blank = (is_blank_iff d).1 filled in
      elim h [
        | inl same ↦ ground (arith, not_blank, (text_eq_iff domain d).1 same)
        | inr sub ↦ ground (arith, not_blank, (ends_with_iff (b'.' ∷ d) domain).1 sub)
      ],
)

module _ (lower : Text → Text) (search : Text → Text → Option Bool) where
  abbrev pub DomainMeans : Option (List Text) → Email → Type 0
  DomainMeans none e = Unit
  DomainMeans (some ds) e =
      Exists (λ d. IsWithin (sender_domain_of lower search e) (lstrip_at (lower d))) ds

  abbrev pub LocalMeans : Option (List Text) → Email → Type 0
  LocalMeans none e = Unit
  LocalMeans (some rs) e = Exists (λ r. lower r ≡ recipient_local_of lower search e) rs

  abbrev pub KeywordMeans : Option (List Text) → Email → Type 0
  KeywordMeans none e = Unit
  KeywordMeans (some ks) e = Exists (λ k. (k ≢ []) × Occurs (lower k) (haystack lower search e)) ks

  abbrev pub RegexMeans : Option Text → Email → Type 0
  RegexMeans none e = Unit
  RegexMeans (some p) e = (p ≡ []) ⊎ (search p e.subject ≡ some true)

  domain_clause_iff :
      (o : Option (List Text)) (e : Email)
      → (domain_clause lower search o e ≡ true) ↔ DomainMeans o e
  unfolding domain_clause
  domain_clause_iff none e = (λ h. tt, λ h. refl)
  domain_clause_iff (some ds) e =
      let domain = sender_domain_of lower search e in
      rw
        (any-map (λ d. not (is_blank d) && (text_eq domain d || ends_with (b'.' ∷ d) domain))
          (λ d. lstrip_at (lower d)) ds)
        (any_iff _ _ ds (λ d. IsWithin-iff domain (lstrip_at (lower d))))

  local_clause_iff :
      (o : Option (List Text)) (e : Email) → (local_clause lower search o e ≡ true) ↔ LocalMeans o e
  unfolding local_clause
  local_clause_iff none e = (λ h. tt, λ h. refl)
  local_clause_iff (some rs) e =
      rw (any-map (λ r. text_eq r (recipient_local_of lower search e)) lower rs)
        (any_iff _ _ rs (λ r. text_eq_iff (lower r) (recipient_local_of lower search e)))

  keyword_iff :
      (k : Text) (e : Email)
      → (not (is_blank k) && occurs (lower k) (haystack lower search e) ≡ true)
        ↔ ((k ≢ []) × Occurs (lower k) (haystack lower search e))
  keyword_iff k e =
      let inside = occurs_iff (lower k) (haystack lower search e) in
      (
        λ h. ((is_blank_iff k).0 (ground (arith, h)), inside.0 (ground (arith, h))),
        λ (filled, h). ground (arith, (is_blank_iff k).1 filled, inside.1 h),
      )

  keyword_clause_iff :
      (o : Option (List Text)) (e : Email)
      → (keyword_clause lower search o e ≡ true) ↔ KeywordMeans o e
  unfolding keyword_clause
  keyword_clause_iff none e = (λ h. tt, λ h. refl)
  keyword_clause_iff (some ks) e =
      rw
        (
          any-map (λ k. occurs k (haystack lower search e)) lower (keep (λ k. not (is_blank k)) ks),
          any-keep (λ k. occurs (lower k) (haystack lower search e)) (λ k. not (is_blank k)) ks,
        )
        (any_iff _ _ ks (λ k. keyword_iff k e))

  regex_clause_iff :
      (o : Option Text) (e : Email) → (regex_clause lower search o e ≡ true) ↔ RegexMeans o e
  unfolding regex_clause
  regex_clause_iff none e = (λ h. tt, λ h. refl)
  regex_clause_iff (some []) e = (λ h. inl refl, λ h. refl)
  regex_clause_iff (some (c ∷ p)) e = (
    λ h. elim (Option-cases (search (c ∷ p) e.subject)) [
      | inl e ↦ cc
      | inr (b, e) ↦ inr (ground (arith, h, e))
    ],
    λ h. elim h [ inl e ↦ cc | inr e ↦ ground (arith, e) ],
  )

  -- A rule matches an email exactly when its conditions have a key and each clause that is there
  -- holds: the sender's domain is one of the given ones or under it, the local part of the recipient
  -- is one of the given ones, one of the given keywords that are not blank occurs in the subject or
  -- body, and the pattern is blank or is found in the subject.
  pub rule_matches_iff :
      (m : Match) (e : Email)
      → (rule_matches lower search m e ≡ true) ↔ (
          (is_empty lower search m ≡ false)
          × DomainMeans m.sender_domain e
          × LocalMeans m.recipient_local e
          × KeywordMeans m.keyword e
          × RegexMeans m.subject_regex e)
  unfolding rule_matches
  rule_matches_iff m e =
      let domain = domain_clause_iff m.sender_domain e in
      let recipient = local_clause_iff m.recipient_local e in
      let keyword = keyword_clause_iff m.keyword e in
      let regex = regex_clause_iff m.subject_regex e in
      (
        λ h. (
          ground (arith, h),
          domain.0 (ground (arith, h)),
          recipient.0 (ground (arith, h)),
          keyword.0 (ground (arith, h)),
          regex.0 (ground (arith, h)),
        ),
        λ (filled, d, r, k, x).
            ground (arith, filled, domain.1 d, recipient.1 r, keyword.1 k, regex.1 x),
      )

  -- Conditions of which no clause reads a key, or only a blank pattern, match every email, unless they
  -- are empty.
  pub rule_matches_all :
      (m : Match) (e : Email)
      → m.sender_domain ≡ none
      → m.recipient_local ≡ none
      → m.keyword ≡ none
      → (m.subject_regex ≡ some []) ⊎ ((m.subject_regex ≡ none) × (m.other_keys ≡ true))
      → rule_matches lower search m e ≡ true
  unfolding rule_matches domain_clause local_clause keyword_clause regex_clause
  rule_matches_all m e d r k h = elim h [
    | inl blank ↦ ground (arith, d, r, k, blank)
    | inr (absent, others) ↦ ground (arith, d, r, k, absent, others)
  ]
