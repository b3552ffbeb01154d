-- ===== src/Accounts/Invitations/Once.antt =====
-- An invitation makes one member (apps/accounts/views.py).
use kanzan.Prelude.{
  ℕ, ◌+◌, ◌≤◌, ◌≡◌, ◌⊎◌, inl, inr, refl, true, some, List, [], ◌∷◌, ◌==◌, length, arith, Bool-cases,
  Option-cases,
}
use mathlib.Core.Path.{subst, sym}
use kanzan.Accounts.Invitations.{
  Invitation, Site, User, find, accept_row, accept_found, joined, accept_invitation,
}

-- Calls with one token, each by a user and at a time.
unfoldable pub accepts : ℕ → List (User × ℕ) → Site → Site
accepts token [] s = s
accepts token ((u, now) ∷ calls) s = accepts token calls (accept_invitation token u now s).1

-- The row of the token is accepted.
abbrev pub IsUsed : ℕ → Site → Type 0
IsUsed token s = (i : Invitation) × (find token s.invitations ≡ some i) × (i.is_accepted ≡ true)

find-token :
    (token : ℕ) (is : List Invitation) (i : Invitation) → find token is ≡ some i → i.token ≡ token
unfolding find
find-token token [] i e = cc
find-token token (j ∷ is) i e = ground (arith, e, find-token token is i)

find-accept_row :
    (token : ℕ) (is : List Invitation) (i : Invitation)
    → find token is ≡ some i
    → find token (accept_row token is) ≡ some (record i { is_accepted = true })
unfolding find accept_row
find-accept_row token [] i e = cc
find-accept_row token (j ∷ is) i e = elim (Bool-cases (j.token == token)) [
  | inl here ↦ ground (arith, e, here)
  | inr later ↦ ground (arith, e, later, find-accept_row token is i (ground (arith, e, later)))
]

IsUsed-accept_invitation :
    (token : ℕ) (u : User) (now : ℕ) (s : Site)
    → IsUsed token s
    → (accept_invitation token u now s).1 ≡ s
unfolding accept_invitation
IsUsed-accept_invitation token u now s (i, e, used) = rw (e, accept_found) (rw used refl)

IsUsed-accepts :
    (token : ℕ) (calls : List (User × ℕ)) (s : Site) → IsUsed token s → accepts token calls s ≡ s
unfolding accepts
IsUsed-accepts token [] s h = refl
IsUsed-accepts token ((u, now) ∷ calls) s h =
    rw (IsUsed-accept_invitation token u now s h) (IsUsed-accepts token calls s h)

accept_found-cases :
    (i : Invitation) (u : User) (now : ℕ) (s : Site)
    → ((accept_found (some i) u now s).1 ≡ s) ⊎ ((accept_found (some i) u now s).1 ≡ joined u i s)
accept_found-cases i u now s = ground arith

-- A call changes nothing, or makes one member and uses the token.
accept_invitation-cases :
    (token : ℕ) (u : User) (now : ℕ) (s : Site)
    → let s' = (accept_invitation token u now s).1 in
      (s' ≡ s) ⊎ (IsUsed token s' × (length s'.members ≡ length s.members + 1))
unfolding accept_invitation
accept_invitation-cases token u now s = elim (Option-cases (find token s.invitations)) [
  | inl e ↦ inl (rw (e, accept_found) refl)
  | inr (i, e) ↦
      let same : i.token ≡ token = find-token token s.invitations i e in
      elim (accept_found-cases i u now s) [
        | inl kept ↦ inl (rw (e, accept_found) kept)
        | inr made ↦ inr (
            rw (e, accept_found)
              (rw made (
                (
                  record i { is_accepted = true },
                  subst
                      (λ k.
                        find token (accept_row k s.invitations)
                        ≡ some (record i { is_accepted = true }))
                      (sym same) (find-accept_row token s.invitations i e),
                  refl,
                ),
                omega arith,
              )))
      ]
]

-- However often and by whomever an invitation is accepted, it makes at most one member.
pub accepts_once :
    (token : ℕ) (calls : List (User × ℕ)) (s : Site)
    → length (accepts token calls s).members ≤ length s.members + 1
unfolding accepts
accepts_once token [] s = omega arith
accepts_once token ((u, now) ∷ calls) s =
    let s' = (accept_invitation token u now s).1 in
    elim (accept_invitation-cases token u now s) [
      | inl same ↦ ground (arith, accepts_once token calls s', same)
      | inr (used, one) ↦ ground (arith, IsUsed-accepts token calls s' used, one)
    ]
