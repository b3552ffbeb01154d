-- ===== src/Billing/Limits/Tests.antt =====
-- Requests of a tenant on a small plan.
use kanzan.Prelude.{◌+◌, ◌≡◌, refl, none, some, List, [], ◌∷◌}
use kanzan.Billing.Limits.{
  Limits, Account, Request, check_limit, check_can_create_ticket, check_can_create_contact,
  requests,
}
use kanzan.Billing.Limits.Requests.{is_ticket, is_contact, total, requests_unlimited}

-- A plan with two tickets a month and one custom field, and counters that are at zero.
abbrev small : Limits
small = record {
  max_users = some 2;
  max_contacts = some 2;
  max_tickets_per_month = some 2;
  max_storage_mb = some 1;
  max_custom_fields = some 1;
}

abbrev account : Account
account = record {
  subscribed = some small;
  free = none;
  usage = none;
  active_members = 1;
  custom_fields = 0;
  contacts = 0;
  tickets = 0;
  stored_bytes = 0;
}

abbrev many : List Request
many =
    Request.create_ticket ∷ Request.add_custom_field ∷ Request.create_ticket
    ∷ Request.add_custom_field ∷ Request.create_contact ∷ Request.create_ticket ∷ []

requests_unlimited_example :
    ((requests many account).tickets ≡ 0 + total is_ticket many)
    × ((requests many account).contacts ≡ 0 + total is_contact many)
unfolding check_can_create_ticket check_can_create_contact check_limit
requests_unlimited_example = requests_unlimited many account refl refl
