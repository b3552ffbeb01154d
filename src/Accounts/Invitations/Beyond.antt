-- ===== src/Accounts/Invitations/Beyond.antt =====
-- Invitations beyond the limit of users (apps/accounts/views.py, apps/billing/services.py).
use kanzan.Prelude.{
  ℕ, ◌+◌, ◌≡◌, refl, false, not, Option, List, [], ◌∷◌, ◌==◌, keep, any, length, All, arith,
}
use mathlib.Core.Path.{subst, sym}
use kanzan.Billing.Limits.{Limits, allowed, check_plan}
use kanzan.Accounts.Invitations.{
  Invitation, Site, Invite, is_for, is_pending, is_lapsed, is_member, is_higher, active_members,
  row_of, create_checked, create_invitation,
}

-- Invitations that are made one after the other at one time.
pub invites : Option Limits → ℕ → List Invite → Site → Site
invites plan now [] s = s
invites plan now (i ∷ is) s = invites plan now is (create_invitation plan i now s).1

-- The email is new to the tenant, and the role is not above the inviter's.
abbrev pub IsFresh : ℕ → Site → Invite → Type 0
IsFresh tenant s i =
    (i.tenant ≡ tenant)
    × (any (is_member i.tenant i.email) s.members ≡ false)
    × (any (is_for i.tenant i.email) s.invitations ≡ false)
    × (is_higher i.role i.inviter_level ≡ false)

-- Each of the invitations is fresh, and no two are for one email.
abbrev pub AreFresh : ℕ → Site → List Invite → Type 0
AreFresh tenant s [] = Unit
AreFresh tenant s (i ∷ is) =
    IsFresh tenant s i × All (λ j. (i.email == j.email) ≡ false) is × AreFresh tenant s is

keep-fresh :
    (tenant email now : ℕ) (is : List Invitation)
    → any (is_for tenant email) is ≡ false
    → keep (λ j. not (is_lapsed tenant email now j)) is ≡ is
keep-fresh tenant email now [] h = refl
keep-fresh tenant email now (i ∷ is) h =
    ground (arith, h, keep-fresh tenant email now is (ground (arith, h)))

none-is_pending :
    (tenant email now : ℕ) (is : List Invitation)
    → any (is_for tenant email) is ≡ false
    → any (is_pending tenant email now) is ≡ false
none-is_pending tenant email now [] h = refl
none-is_pending tenant email now (i ∷ is) h =
    ground (arith, h, none-is_pending tenant email now is (ground (arith, h)))

create_invitation-fresh :
    (plan : Option Limits) (tenant : ℕ) (i : Invite) (now : ℕ) (s : Site)
    → check_plan (λ p. p.max_users) (active_members tenant s.members) plan ≡ allowed
    → IsFresh tenant s i
    → (create_invitation plan i now s).1 ≡ record s { invitations = row_of i ∷ s.invitations }
unfolding create_invitation
create_invitation-fresh plan tenant i now s check (same, no_member, no_invitation, not_higher) =
    let kept = keep-fresh i.tenant i.email now s.invitations no_invitation in
    let no_pending = none-is_pending i.tenant i.email now s.invitations no_invitation in
    let checked : check_plan (λ p. p.max_users) (active_members i.tenant s.members) plan ≡ allowed =
      subst (λ t. check_plan (λ p. p.max_users) (active_members t s.members) plan ≡ allowed)
        (sym same) check in
    rw (no_member, kept, no_pending, checked, create_checked) (rw not_higher refl)

-- A fresh email stays fresh after an invitation for another one.
AreFresh-after :
    (tenant : ℕ) (s : Site) (i : Invite) (is : List Invite)
    → All (λ j. (i.email == j.email) ≡ false) is
    → AreFresh tenant s is
    → AreFresh tenant (record s { invitations = row_of i ∷ s.invitations }) is
AreFresh-after tenant s i [] h f = tt
AreFresh-after tenant s i (j ∷ is) h ((same, m, n, r), d, f) =
    ((same, m, ground (arith, n, h.0), r), d, AreFresh-after tenant s i is h.1 f)

-- Where the plan of a tenant lets one more user in, any number of invitations, to emails that are
-- new to the tenant and distinct, are all made: the limit counts members, and not the invitations
-- that any of these emails may still accept.
pub invites_beyond :
    (plan : Option Limits) (tenant now : ℕ) (is : List Invite) (s : Site)
    → check_plan (λ p. p.max_users) (active_members tenant s.members) plan ≡ allowed
    → AreFresh tenant s is
    → let s' = invites plan now is s in
      (length s'.invitations ≡ length is + length s.invitations) × (s'.members ≡ s.members)
unfolding invites
invites_beyond plan tenant now [] s check h = (omega arith, refl)
invites_beyond plan tenant now (i ∷ is) s check (fresh, other, h) =
    let s' = record s { invitations = row_of i ∷ s.invitations } in
    let (count, members) =
      invites_beyond plan tenant now is s' check (AreFresh-after tenant s i is other h) in
    subst
      (λ (x : Site).
        (length (invites plan now is x).invitations ≡ length (i ∷ is) + length s.invitations)
        × ((invites plan now is x).members ≡ s.members))
      (sym (create_invitation-fresh plan tenant i now s check fresh))
      (omega (arith, count), members)
