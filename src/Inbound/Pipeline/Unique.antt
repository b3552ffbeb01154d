-- ===== src/Inbound/Pipeline/Unique.antt =====
-- The rows that a transaction writes keep one holder for each key
-- (apps/inbound_email/services.py).
use kanzan.Prelude.{
  ℕ, ◌≡◌, ◌⊎◌, false, some, List, [], ◌∷◌, ◌==◌, if◌then◌else◌, All, keep, first, arith, Bool-cases,
  inl, inr,
}
use mathlib.Core.Path.{subst}
use kanzan.Inbound.Rows.{InboundEmail}
use kanzan.Inbound.Pipeline.{same_key, is_duplicate, write}
use kanzan.Inbound.Pipeline.Claims.{is_done, Settles}

-- A row that is delivered has the key of its tenant and message.
abbrev pub IsOwn : InboundEmail → Type 0
IsOwn e =
    (is_done e.status ≡ false)
    ⊎ ((t : ℕ) × (e.tenant ≡ some t) × (e.idempotency_key ≡ some (t, e.message_id)))

-- Only the row `pk` may have the key.
abbrev pub IsHolder : ℕ × ℕ → ℕ → InboundEmail → Type 0
IsHolder k pk e = (same_key e.idempotency_key k ≡ false) ⊎ (e.pk ≡ pk)

-- Delivered rows have their keys, and no two rows share one, as the unique column says.
pub record IsClaimed (emails : List InboundEmail) : Type 0 where
  pub own : All IsOwn emails
  pub unique : (k : ℕ × ℕ) → (pk : ℕ) × All (IsHolder k pk) emails

All-write {ℓ} :
    (P Q : InboundEmail → Type ℓ) (e : InboundEmail) (es : List InboundEmail)
    → ((r : InboundEmail) → P r → Q (if r.pk == e.pk then e else r))
    → All P es
    → All Q (write e es)
All-write P Q e [] f h = tt
All-write P Q e (r ∷ es) f h = (f r h.0, All-write P Q e es f h.1)

All-first-keep {ℓ} :
    (P : InboundEmail → Type ℓ) (pk : ℕ) (es : List InboundEmail) (e : InboundEmail)
    → first (keep (λ r. r.pk == pk) es) ≡ some e
    → All P es
    → P e × (e.pk ≡ pk)
All-first-keep P pk [] e h a = cc
All-first-keep P pk (r ∷ es) e h a = elim (Bool-cases (r.pk == pk)) [
  | inl here ↦ let same : r ≡ e = ground arith in (subst P same a.0, ground arith)
  | inr other ↦ All-first-keep P pk es e (ground arith) a.1
]

is_duplicate-IsHolder :
    (pk : ℕ) (k : ℕ × ℕ) (es : List InboundEmail)
    → is_duplicate pk k es ≡ false
    → All (IsHolder k pk) es
unfolding is_duplicate
is_duplicate-IsHolder pk k [] h = tt
is_duplicate-IsHolder pk k (e ∷ es) h = (
  elim (Bool-cases (e.pk == pk)) [ inl here ↦ inr (ground arith) | inr other ↦ inl (ground arith) ],
  is_duplicate-IsHolder pk k es (ground arith),
)

Settles-IsOwn : (es : List InboundEmail) (e e' : InboundEmail) → Settles es e e' → IsOwn e'
Settles-IsOwn es e e' (p, inl (k, new)) = inl new
Settles-IsOwn es e e' (p, inr (t, at, k, once)) = inr (t, at, k)

write_unique :
    (es : List InboundEmail) (e e' : InboundEmail) (pk : ℕ) (k : ℕ × ℕ)
    → All (IsHolder k pk) es
    → IsHolder k pk e
    → Settles es e e'
    → (p : ℕ) × All (IsHolder k p) (write e' es)
write_unique es e e' pk k held mine (same, inl (key, new)) =
    (pk, All-write (IsHolder k pk) (IsHolder k pk) e' es (λ r h. ground arith) held)
write_unique es e e' pk k held mine (same, inr (t, at, key, once)) =
    elim (Bool-cases (same_key (some (t, e'.message_id)) k)) [
      | inl this ↦ (
        e.pk,
        All-write (IsHolder (t, e'.message_id) e.pk) (IsHolder k e.pk) e' es (λ r h. ground arith)
            (is_duplicate-IsHolder e.pk (t, e'.message_id) es once),
      )
      | inr other ↦ (pk, All-write (IsHolder k pk) (IsHolder k pk) e' es (λ r h. ground arith) held)
    ]

pub write-IsClaimed :
    (es : List InboundEmail) (pk : ℕ) (e e' : InboundEmail)
    → IsClaimed es
    → first (keep (λ r. r.pk == pk) es) ≡ some e
    → Settles es e e'
    → IsClaimed (write e' es)
write-IsClaimed es pk e e' c found s = record {
  own =
      All-write IsOwn IsOwn e' es
        (λ r h. elim (Bool-cases (r.pk == e'.pk)) [
          | inl here ↦ rw here (Settles-IsOwn es e e' s)
          | inr other ↦ rw other h
        ])
        c.own;
  unique = λ k.
      let (p, held) = c.unique k in
      write_unique es e e' p k held (All-first-keep (IsHolder k p) pk es e found held).0 s;
}
