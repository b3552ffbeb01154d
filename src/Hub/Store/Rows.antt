-- ===== src/Hub/Store/Rows.antt =====
-- Laws of reading and writing the rows of apps/inbox_hub.
use kanzan.Prelude.{
  ℕ, ◌≡◌, refl, Bool, some, List, [], ◌∷◌, ◌==◌, if◌then◌else◌, arith, Bool-cases, inl, inr, ap,
  All,
}
use kanzan.Hub.Store.{HubEmail, Availability, find, save, is_row_of, update_where, availability_of}
use mathlib.Core.Option

-- A write that keeps the key is read back, and no other row changes.
pub find-save :
    (k pk : ℕ) (write : HubEmail → HubEmail) (es : List HubEmail)
    → ((e : HubEmail) → e.pk ≡ pk → (write e).pk ≡ pk)
    → find k (save pk write es) ≡ (if k == pk then Option.map write (find k es) else find k es)
unfolding find save
find-save k pk write [] h = ground arith
find-save k pk write (e ∷ es) h = ground (arith, h e, find-save k pk write es h)

pub find-save_self :
    (pk : ℕ) (write : HubEmail → HubEmail) (e : HubEmail) (es : List HubEmail)
    → ((e : HubEmail) → (write e).pk ≡ e.pk)
    → find pk es ≡ some e
    → find pk (save pk write es) ≡ some (write e)
unfolding find save
find-save_self pk write e [] h p = cc
find-save_self pk write e (x ∷ es) h p = ground (arith, h x, find-save_self pk write e es h)

pub find-save_const :
    (k : ℕ) (e e' : HubEmail) (es : List HubEmail)
    → find k es ≡ some e
    → e'.pk ≡ k
    → find k (save k (λ row. e') es) ≡ some e'
unfolding find save
find-save_const k e e' [] h p = cc
find-save_const k e e' (x ∷ es) h p = ground (arith, find-save_const k e e' es)

pub find-pk : (k : ℕ) (e : HubEmail) (es : List HubEmail) → find k es ≡ some e → e.pk ≡ k
unfolding find
find-pk k e [] h = cc
find-pk k e (x ∷ es) h = ground (arith, find-pk k e es)

-- A write to the rows that a test picks, read back for one user.
pub availability_of-update_where :
    (tenant user : ℕ) (p : Availability → Bool) (write : Availability → Availability)
    (rows : List Availability)
    → ((a : Availability) → is_row_of tenant user (write a) ≡ is_row_of tenant user a)
    → availability_of tenant user (update_where p write rows)
      ≡ Option.map (λ a. if p a then write a else a) (availability_of tenant user rows)
unfolding availability_of update_where
availability_of-update_where tenant user p write [] h = refl
availability_of-update_where tenant user p write (a ∷ rows) h =
    let rest = availability_of-update_where tenant user p write rows h in
    elim (Bool-cases (p a)) [
      | inl picked ↦ elim (Bool-cases (is_row_of tenant user a)) [
        | inl own ↦ rw (picked, h a, own) (ap some (rw picked))
        | inr other ↦ rw (picked, h a, other) rest
      ]
      | inr left ↦ elim (Bool-cases (is_row_of tenant user a)) [
        | inl own ↦ rw (left, own) (ap some (rw left))
        | inr other ↦ rw (left, other) rest
      ]
    ]

pub availability_of-is_row_of :
    (tenant user : ℕ) (a : Availability) (rows : List Availability)
    → availability_of tenant user rows ≡ some a
    → (a.tenant ≡ tenant) × (a.user ≡ user)
unfolding availability_of
availability_of-is_row_of tenant user a [] h = absurd (cc h)
availability_of-is_row_of tenant user a (x ∷ rows) h =
    ground (arith, availability_of-is_row_of tenant user a rows)

-- The key of an item is that of a row.
abbrev pub FindIn : HubEmail → List HubEmail → Type 0
FindIn e es = (row : HubEmail) × (find e.pk es ≡ some row)

FindIn-cons : (x e : HubEmail) (es : List HubEmail) → FindIn e es → FindIn e (x ∷ es)
unfolding find
FindIn-cons x e es (row, h) = ((if x.pk == e.pk then x else row), ground arith)

All-cons :
    (x : HubEmail) (es fs : List HubEmail)
    → All (λ e. FindIn e es) fs
    → All (λ e. FindIn e (x ∷ es)) fs
All-cons x es [] h = tt
All-cons x es (f ∷ fs) h = (FindIn-cons x f es h.0, All-cons x es fs h.1)

FindIn-head : (x : HubEmail) (es : List HubEmail) → FindIn x (x ∷ es)
unfolding find
FindIn-head x es = (x, ground arith)

pub All-FindIn : (es : List HubEmail) → All (λ e. FindIn e es) es
All-FindIn [] = tt
All-FindIn (x ∷ es) = (FindIn-head x es, All-cons x es es (All-FindIn es))
