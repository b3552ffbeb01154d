-- ===== src/Billing/Limits.antt =====
-- apps/billing/services.py: the limits of a plan, and the views that ask for them before they make a
-- row (apps/tickets, contacts, custom_fields and attachments). Storage is counted in bytes.
pub mod Requests
mod Tests
use kanzan.Prelude.{
  ℕ, ◌+◌, ◌*◌, Bool, true, false, Option, none, some, List, [], ◌∷◌, ltb, leb, if◌then◌else◌,
}

-- The limits of a row of `Plan`.
pub record Limits : Type 0 where
  pub max_users : Option ℕ
  pub max_contacts : Option ℕ
  pub max_tickets_per_month : Option ℕ
  pub max_storage_mb : Option ℕ
  pub max_custom_fields : Option ℕ

-- A row of `UsageTracker`.
pub record Usage : Type 0 where
  pub contacts_count : ℕ
  pub tickets_created : ℕ
  pub storage_used_mb : ℕ

-- A tenant with what the checker reads, and the rows that it counts or that are made.
pub record Account : Type 0 where
  pub subscribed : Option Limits
  pub free : Option Limits
  pub usage : Option Usage
  pub active_members : ℕ
  pub custom_fields : ℕ
  pub contacts : ℕ
  pub tickets : ℕ
  pub stored_bytes : ℕ

pub data Verdict : Type 0 where
  allowed permission_denied : Verdict

-- `_load`: the plan of the subscription, or else the free plan
abbrev pub loaded : Option Limits → Option Limits → Option Limits
loaded (some p) free = some p
loaded none free = free

abbrev pub plan : Account → Option Limits
plan a = loaded a.subscribed a.free

abbrev pub usage_of : (Usage → ℕ) → Option Usage → ℕ
usage_of f none = 0
usage_of f (some u) = f u

-- `_check_limit`
unfoldable pub check_limit : Option ℕ → ℕ → Verdict
check_limit none current = allowed
check_limit (some limit) current = if leb limit current then permission_denied else allowed

-- A check with no plan is refused.
abbrev pub check_plan : (Limits → Option ℕ) → ℕ → Option Limits → Verdict
check_plan f current none = permission_denied
check_plan f current (some p) = check_limit (f p) current

unfoldable pub check_can_create_contact : Account → Verdict
check_can_create_contact a =
    check_plan (λ p. p.max_contacts) (usage_of (λ u. u.contacts_count) a.usage) (plan a)

unfoldable pub check_can_create_ticket : Account → Verdict
check_can_create_ticket a =
    check_plan (λ p. p.max_tickets_per_month) (usage_of (λ u. u.tickets_created) a.usage) (plan a)

unfoldable pub check_can_add_user : Account → Verdict
check_can_add_user a = check_plan (λ p. p.max_users) a.active_members (plan a)

unfoldable pub check_can_add_custom_field : Account → Verdict
check_can_add_custom_field a = check_plan (λ p. p.max_custom_fields) a.custom_fields (plan a)

abbrev pub megabyte : ℕ
megabyte = 1048576

abbrev pub check_projected : Option ℕ → ℕ → Verdict
check_projected none projected = allowed
check_projected (some m) projected =
    if ltb (m * megabyte) projected then permission_denied else allowed

abbrev pub check_storage_of : ℕ → Option Limits → Verdict
check_storage_of projected none = permission_denied
check_storage_of projected (some p) = check_projected p.max_storage_mb projected

unfoldable pub check_storage : ℕ → Account → Verdict
check_storage bytes a =
    check_storage_of (usage_of (λ u. u.storage_used_mb) a.usage * megabyte + bytes) (plan a)

pub data Request : Type 0 where
  create_ticket create_contact add_custom_field : Request
  add_attachment : ℕ → Request

abbrev pub if_allowed : Verdict → Account → Account → Account
if_allowed allowed after before = after
if_allowed permission_denied after before = before

-- `perform_create` of a view: the check, and the new row
unfoldable pub perform_create : Request → Account → Account
perform_create Request.create_ticket a =
    if_allowed (check_can_create_ticket a) (record a { tickets = a.tickets + 1 }) a
perform_create Request.create_contact a =
    if_allowed (check_can_create_contact a) (record a { contacts = a.contacts + 1 }) a
perform_create Request.add_custom_field a =
    if_allowed (check_can_add_custom_field a) (record a { custom_fields = a.custom_fields + 1 }) a
perform_create (Request.add_attachment bytes) a =
    if_allowed (check_storage bytes a) (record a { stored_bytes = a.stored_bytes + bytes }) a

pub requests : List Request → Account → Account
requests [] a = a
requests (r ∷ rs) a = requests rs (perform_create r a)
