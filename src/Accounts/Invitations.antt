-- ===== src/Accounts/Invitations.antt =====
-- apps/accounts/views.py and serializers.py: invitations to a tenant. An email is a number that
-- stands for its text in lower case; the token of a new invitation is an argument, and so is the
-- user who accepts one, whether signed in or registered by the same call. Making an invitation is no
-- transaction: the lapsed ones that it deletes stay deleted where it is refused.
pub mod Once
pub mod Beyond
mod Tests
use kanzan.Prelude.{
  ℕ, ◌+◌, Bool, true, false, ◌&&◌, ◌||◌, not, Option, none, some, List, [], ◌∷◌, ◌==◌, ltb, leb,
  if◌then◌else◌, keep, first, any, length,
}
use kanzan.Billing.Limits.{Limits, Verdict, allowed, permission_denied, check_plan}

-- A row of `Invitation`.
pub record Invitation : Type 0 where
  pub token : ℕ
  pub tenant : ℕ
  pub email : ℕ
  pub role : ℕ
  pub invited_by : ℕ
  pub is_accepted : Bool
  pub expires_at : ℕ

-- A row of `TenantMembership`, with the email of its user.
pub record Member : Type 0 where
  pub user : ℕ
  pub email : ℕ
  pub tenant : ℕ
  pub role : ℕ
  pub invited_by : Option ℕ
  pub is_active : Bool

pub record Site : Type 0 where
  pub invitations : List Invitation
  pub members : List Member

-- `Role`, with its `hierarchy_level`
pub record Role : Type 0 where
  pub pk : ℕ
  pub level : ℕ

-- What an invitation asks for: the inviter has a level if there is a membership.
pub record Invite : Type 0 where
  pub tenant : ℕ
  pub email : ℕ
  pub role : Role
  pub inviter : ℕ
  pub inviter_level : Option ℕ
  pub token : ℕ
  pub expires_at : ℕ

pub data Invited : Type 0 where
  invited already_member pending_exists limit_reached higher_role : Invited

abbrev pub is_for : ℕ → ℕ → Invitation → Bool
is_for tenant email i = i.tenant == tenant && i.email == email

-- An invitation that is neither accepted nor expired, or not accepted but expired.
abbrev pub is_pending : ℕ → ℕ → ℕ → Invitation → Bool
is_pending tenant email now i = is_for tenant email i && (not i.is_accepted && leb now i.expires_at)

abbrev pub is_lapsed : ℕ → ℕ → ℕ → Invitation → Bool
is_lapsed tenant email now i = is_for tenant email i && (not i.is_accepted && ltb i.expires_at now)

abbrev pub is_member : ℕ → ℕ → Member → Bool
is_member tenant email m = m.tenant == tenant && (m.email == email && m.is_active)

-- `active_members` of `check_can_add_user`
unfoldable pub active_members : ℕ → List Member → ℕ
active_members tenant ms = length (keep (λ m. m.tenant == tenant && m.is_active) ms)

-- `role.hierarchy_level < membership.effective_role.hierarchy_level`
abbrev pub is_higher : Role → Option ℕ → Bool
is_higher role none = false
is_higher role (some level) = ltb role.level level

abbrev pub row_of : Invite → Invitation
row_of i = record {
  token = i.token;
  tenant = i.tenant;
  email = i.email;
  role = i.role.pk;
  invited_by = i.inviter;
  is_accepted = false;
  expires_at = i.expires_at;
}

-- `perform_create` of the view.
abbrev pub create_checked : Verdict → Invite → Site → Invited × Site
create_checked permission_denied i s = (limit_reached, s)
create_checked allowed i s =
    if is_higher i.role i.inviter_level
    then (higher_role, s)
    else (invited, record s { invitations = row_of i ∷ s.invitations })

-- The serializer's `validate`, and then the view; the plan is the tenant's.
unfoldable pub create_invitation : Option Limits → Invite → ℕ → Site → Invited × Site
create_invitation plan i now s =
    if any (is_member i.tenant i.email) s.members
    then (already_member, s)
    else (let kept = keep (λ j. not (is_lapsed i.tenant i.email now j)) s.invitations in
        let s1 = record s { invitations = kept } in
        if any (is_pending i.tenant i.email now) kept
        then (pending_exists, s1)
        else create_checked (check_plan (λ p. p.max_users) (active_members i.tenant s.members) plan)
            i s1)

pub data Accepted : Type 0 where
  accepted invalid_token already_accepted expired other_email member_already : Accepted

-- `Invitation.unscoped.get(token=token)`
unfoldable pub find : ℕ → List Invitation → Option Invitation
find token [] = none
find token (i ∷ is) = if i.token == token then some i else find token is

unfoldable pub accept_row : ℕ → List Invitation → List Invitation
accept_row token [] = []
accept_row token (i ∷ is) =
    (if i.token == token then record i { is_accepted = true } else i) ∷ accept_row token is

-- A user who is signed in, or was just registered.
pub record User : Type 0 where
  pub pk : ℕ
  pub email : ℕ

abbrev pub is_member_row : ℕ → ℕ → Member → Bool
is_member_row user tenant m = m.user == user && m.tenant == tenant

abbrev pub new_member : User → Invitation → Member
new_member u i = record {
  user = u.pk;
  email = u.email;
  tenant = i.tenant;
  role = i.role;
  invited_by = some i.invited_by;
  is_active = true;
}

abbrev pub joined : User → Invitation → Site → Site
joined u i s = record {
  invitations = accept_row i.token s.invitations;
  members = new_member u i ∷ s.members;
}

abbrev pub accept_found : Option Invitation → User → ℕ → Site → Accepted × Site
accept_found none u now s = (invalid_token, s)
accept_found (some i) u now s =
    if i.is_accepted
    then (already_accepted, s)
    else if ltb i.expires_at now
    then (expired, s)
    else if not (u.email == i.email)
    then (other_email, s)
    else if any (is_member_row u.pk i.tenant) s.members
    then (member_already, s)
    else (accepted, joined u i s)

-- `accept_invitation`
unfoldable pub accept_invitation : ℕ → User → ℕ → Site → Accepted × Site
accept_invitation token u now s = accept_found (find token s.invitations) u now s
