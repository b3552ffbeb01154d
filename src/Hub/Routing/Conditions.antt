-- ===== src/Hub/Routing/Conditions.antt =====
-- apps/inbox_hub/routing.py: whether a rule's conditions hold of an email. A text is the list of its
-- code points; `str.lower` and `re.search` are arguments, the second with no result where the
-- pattern is not valid.
pub mod Means
pub mod Texts
use kanzan.Prelude.{
  ℕ, Bool, true, false, ◌&&◌, ◌||◌, not, Option, none, some, List, [], ◌∷◌, ◌++◌, ◌==◌,
  if◌then◌else◌, map, any, keep, is_in,
}

abbrev pub Text : Type 0
Text = List ℕ

-- `RoutingRule.match`: its keys, where `other_keys` tells that there are others, which no test reads.
pub record Match : Type 0 where
  pub sender_domain : Option (List Text)
  pub recipient_local : Option (List Text)
  pub keyword : Option (List Text)
  pub subject_regex : Option Text
  pub other_keys : Bool

-- The texts of an email that the tests read.
pub record Email : Type 0 where
  pub sender_email : Text
  pub recipient_email : Text
  pub subject : Text
  pub body : Text

unfoldable pub text_eq : Text → Text → Bool
text_eq [] [] = true
text_eq [] (d ∷ t) = false
text_eq (c ∷ s) [] = false
text_eq (c ∷ s) (d ∷ t) = (c == d) && text_eq s t

-- `s.startswith(k)`, `k in s` and `s.endswith(t)`
unfoldable pub starts_with : Text → Text → Bool
starts_with [] s = true
starts_with (c ∷ k) [] = false
starts_with (c ∷ k) (d ∷ s) = (c == d) && starts_with k s

unfoldable pub occurs : Text → Text → Bool
occurs k [] = starts_with k []
occurs k (d ∷ s) = starts_with k (d ∷ s) || occurs k s

unfoldable pub ends_with : Text → Text → Bool
ends_with t [] = text_eq [] t
ends_with t (d ∷ s) = text_eq (d ∷ s) t || ends_with t s

-- `s.split("@")[-1]` and `s.split("@")[0]`
unfoldable pub after_at : Text → Text
after_at [] = []
after_at (c ∷ s) =
    let rest = after_at s in if is_in b'@' s then rest else if c == b'@' then s else c ∷ s

unfoldable pub before_at : Text → Text
before_at [] = []
before_at (c ∷ s) = let rest = before_at s in if c == b'@' then [] else c ∷ rest

-- `d.lstrip("@")`
unfoldable pub lstrip_at : Text → Text
lstrip_at [] = []
lstrip_at (c ∷ s) = let rest = lstrip_at s in if c == b'@' then rest else c ∷ s

abbrev pub is_blank : Text → Bool
is_blank [] = true
is_blank (c ∷ s) = false

module _ (lower : Text → Text) (search : Text → Text → Option Bool) where
  abbrev pub sender_domain_of : Email → Text
  sender_domain_of e = if is_in b'@' e.sender_email then lower (after_at e.sender_email) else []

  abbrev pub recipient_local_of : Email → Text
  recipient_local_of e =
      if is_in b'@' e.recipient_email then lower (before_at e.recipient_email) else []

  abbrev pub haystack : Email → Text
  haystack e = lower (e.subject ++ (b'\n' ∷ e.body))

  -- The clause of each key, which holds where the key is absent.
  unfoldable pub domain_clause : Option (List Text) → Email → Bool
  domain_clause none e = true
  domain_clause (some ds) e =
      let domain = sender_domain_of e in
      any (λ d. not (is_blank d) && (text_eq domain d || ends_with (b'.' ∷ d) domain))
        (map (λ d. lstrip_at (lower d)) ds)

  unfoldable pub local_clause : Option (List Text) → Email → Bool
  local_clause none e = true
  local_clause (some rs) e = any (λ r. text_eq r (recipient_local_of e)) (map lower rs)

  unfoldable pub keyword_clause : Option (List Text) → Email → Bool
  keyword_clause none e = true
  keyword_clause (some ks) e =
      any (λ k. occurs k (haystack e)) (map lower (keep (λ k. not (is_blank k)) ks))

  -- `re.search`, where an error counts as no match
  abbrev pub found : Option Bool → Bool
  found none = false
  found (some b) = b

  unfoldable pub regex_clause : Option Text → Email → Bool
  regex_clause none e = true
  regex_clause (some p) e = if is_blank p then true else found (search p e.subject)

  abbrev pub is_absent {ℓ} : {A : Type ℓ} → Option A → Bool
  is_absent none = true
  is_absent (some a) = false

  -- `not match`
  abbrev pub is_empty : Match → Bool
  is_empty m =
      is_absent m.sender_domain
      && (is_absent m.recipient_local
          && (is_absent m.keyword && (is_absent m.subject_regex && not m.other_keys)))

  -- `_rule_matches`
  unfoldable pub rule_matches : Match → Email → Bool
  rule_matches m e =
      if is_empty m
      then false
      else domain_clause m.sender_domain e
        && (local_clause m.recipient_local e
            && (keyword_clause m.keyword e && regex_clause m.subject_regex e))
