-- ===== src/Accounts/Invitations/Tests.antt =====
-- Invitations of a tenant with one member and room for one more.
use kanzan.Prelude.{ℕ, ◌+◌, ◌≤◌, ◌≡◌, refl, true, Option, none, some, List, [], ◌∷◌, length, arith}
use kanzan.Billing.Limits.{Limits, check_limit}
use kanzan.Accounts.Invitations.{
  Invite, Site, User, active_members, row_of, find, accept_row, accept_invitation,
}
use kanzan.Accounts.Invitations.Once.{accepts, accepts_once}
use kanzan.Accounts.Invitations.Beyond.{invites, invites_beyond}

abbrev two_users : Option Limits
two_users = some (record {
  max_users = some 2;
  max_contacts = none;
  max_tickets_per_month = none;
  max_storage_mb = none;
  max_custom_fields = none;
})

abbrev invite : ℕ → ℕ → Invite
invite email token = record {
  tenant = 7;
  email = email;
  role = record { pk = 3; level = 20 };
  inviter = 1;
  inviter_level = some 10;
  token = token;
  expires_at = 900;
}

abbrev site : Site
site = record {
  invitations = [];
  members =
      record { user = 1; email = 11; tenant = 7; role = 2; invited_by = none; is_active = true }
      ∷ [];
}

abbrev three : List Invite
three = invite 21 31 ∷ invite 22 32 ∷ invite 23 33 ∷ []

invites_beyond_example :
    let s' = invites two_users 500 three site in
    (length s'.invitations ≡ length three + length site.invitations) × (s'.members ≡ site.members)
unfolding active_members check_limit
invites_beyond_example = invites_beyond two_users 7 500 three site refl (ground arith)

abbrev invited_site : Site
invited_site = record site { invitations = row_of (invite 21 31) ∷ [] }

abbrev guest : User
guest = record { pk = 4; email = 21 }

abbrev calls : List (User × ℕ)
calls = (guest, 600) ∷ (guest, 601) ∷ []

accepted_by_guest : length (accepts 31 calls invited_site).members ≡ 2
unfolding accepts accept_invitation find accept_row
accepted_by_guest = refl

accepts_once_example :
    length (accepts 31 calls invited_site).members ≤ length invited_site.members + 1
accepts_once_example = accepts_once 31 calls invited_site
