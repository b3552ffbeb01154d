-- ===== src/Inbound/Rows.antt =====
-- apps/inbound_email/models.py, threading.py and services.py: the rows, the tenant of an address,
-- and the ticket that an email belongs to.
use kanzan.Prelude.{
  ℕ, Bool, true, false, ◌&&◌, Option, none, some, List, [], ◌∷◌, ◌==◌, if◌then◌else◌, String, keep,
  first,
}
use text.Mathlib.Text.{◌==◌ as str_eq}
use mathlib.Core.List.{reverse}

-- `InboundEmail.Status`
pub data Status : Type 0 where
  pending processing ticket_created reply_added parked_in_hub sent rejected bounced failed : Status

-- What the processing reads of an address: `support+acme@crm.io` has the plus part `acme`.
pub record Address : Type 0 where
  pub text : String
  pub local_part : String
  pub plus_part : Option String

-- A row of `InboundEmail`. The number in the subject is that of `extract_ticket_number`, and the
-- reply is empty where `strip_quoted_reply` leaves no text.
pub record InboundEmail : Type 0 where
  pub pk : ℕ
  pub tenant : Option ℕ
  pub message_id : ℕ
  pub in_reply_to : Option ℕ
  pub references : List ℕ
  pub subject_number : Option ℕ
  pub sender : String
  pub recipient : Address
  pub reply_is_empty : Bool
  pub status : Status
  pub ticket : Option ℕ
  -- `in:{tenant}:{message_id}`
  pub idempotency_key : Option (ℕ × ℕ)

pub record TicketRow : Type 0 where
  pub pk : ℕ
  pub tenant : ℕ
  pub number : ℕ

pub record TenantRow : Type 0 where
  pub pk : ℕ
  pub slug : String
  pub is_active : Bool
  pub inbound_email_address : Option String

abbrev pub is_own : Option String → String → Bool
is_own none text = false
is_own (some a) text = str_eq a text

abbrev pub by_slug : List TenantRow → String → Option TenantRow
by_slug tenants slug = first (keep (λ t. str_eq t.slug slug && t.is_active) tenants)

abbrev pub or_else {ℓ} : {A : Type ℓ} → Option A → Option A → Option A
or_else none b = b
or_else (some a) b = some a

abbrev pub if_active : Option TenantRow → Option TenantRow
if_active none = none
if_active (some t) = if t.is_active then some t else none

abbrev pub by_optional_slug : List TenantRow → Option String → Option TenantRow
by_optional_slug tenants none = none
by_optional_slug tenants (some slug) = by_slug tenants slug

-- `resolve_tenant_from_address`, with the slug of the default tenant where one is configured
unfoldable pub resolve_tenant_from_address :
    List TenantRow → Option String → Address → Option TenantRow
resolve_tenant_from_address tenants default_slug a =
    or_else (by_optional_slug tenants a.plus_part) (
      or_else (by_slug tenants a.local_part) (
        or_else (if_active (first (keep (λ t. is_own t.inbound_email_address a.text) tenants)))
          (by_optional_slug tenants default_slug)))

abbrev pub is_number : Option ℕ → ℕ → Bool
is_number none n = false
is_number (some m) n = m == n

abbrev pub has_ticket : InboundEmail → Bool
has_ticket e = elim e.ticket [ none ↦ false | some t ↦ true ]

-- The ticket of the first row with a message id and a ticket.
unfoldable pub ticket_of_message : List InboundEmail → ℕ → ℕ → Option ℕ
ticket_of_message emails tenant message_id =
    elim (first (
      keep (λ e. is_number e.tenant tenant && (e.message_id == message_id && has_ticket e))
        emails)) [ none ↦ none | some e ↦ e.ticket ]

-- `_match_by_in_reply_to`
abbrev pub match_by_in_reply_to : List InboundEmail → ℕ → InboundEmail → Option ℕ
match_by_in_reply_to emails tenant e = elim e.in_reply_to [
  | none ↦ none
  | some id ↦ ticket_of_message emails tenant id
]

-- The loop of `_match_by_references`.
unfoldable pub match_first : List InboundEmail → ℕ → List ℕ → Option ℕ
match_first emails tenant [] = none
match_first emails tenant (id ∷ ids) =
    or_else (ticket_of_message emails tenant id) (match_first emails tenant ids)

-- `_match_by_references`
abbrev pub match_by_references : List InboundEmail → ℕ → InboundEmail → Option ℕ
match_by_references emails tenant e = match_first emails tenant (reverse e.references)

-- `_match_by_subject`; the number 0 counts as none
unfoldable pub match_by_subject : List TicketRow → ℕ → InboundEmail → Option ℕ
match_by_subject tickets tenant e = elim e.subject_number [
  | none ↦ none
  | some number ↦
      if number == 0
      then none
      else elim (first
          (keep (λ (t : TicketRow). t.tenant == tenant && t.number == number) tickets)) [
            | none ↦ none
            | some t ↦ some t.pk
          ]
]

-- `find_existing_ticket`
unfoldable pub find_existing_ticket :
    List InboundEmail → List TicketRow → ℕ → InboundEmail → Option ℕ
find_existing_ticket emails tickets tenant e =
    or_else (match_by_in_reply_to emails tenant e)
      (or_else (match_by_references emails tenant e) (match_by_subject tickets tenant e))
