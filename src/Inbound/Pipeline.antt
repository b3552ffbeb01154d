-- ===== src/Inbound/Pipeline.antt =====
-- apps/inbound_email/services.py: `process_inbound_email` and what it calls.
pub mod Claims
pub mod Unique
pub mod Once
use kanzan.Prelude.{
  ℕ, suc, ◌+◌, Bool, true, false, ◌&&◌, ◌||◌, not, Option, none, some, List, [], ◌∷◌, ◌++◌, ◌==◌,
  if◌then◌else◌, String, keep, first, any, get, map, ◌>>=◌,
}
use text.Mathlib.Text.{◌==◌ as str_eq}
use kanzan.Inbound.Rows.{
  Status, pending, processing, ticket_created, reply_added, parked_in_hub, sent, rejected, bounced,
  failed, Address, InboundEmail, TicketRow, TenantRow, resolve_tenant_from_address,
  find_existing_ticket, is_number, or_else,
}

pub record Contact : Type 0 where
  pub tenant : ℕ
  pub email : String
  pub email_bouncing : Bool

pub record Db : Type 0 where
  pub emails : List InboundEmail
  pub tickets : List TicketRow
  -- the replies: a ticket and the email
  pub replies : List (ℕ × ℕ)
  -- the emails that are parked in the hub
  pub parked : List ℕ
  pub contacts : List Contact
  -- the rows of `BounceLog`, by their email and ticket
  pub bounce_logs : List (ℕ × Option ℕ)
  -- the rows of `TicketCounter`
  pub counters : List (ℕ × ℕ)

-- What the filters make of an email: `run_all_filters` and `classify_email`.
pub data Verdict : Type 0 where
  legitimate bounce auto_reply : Verdict

-- The rest of the configuration. The address that a bounce names is read from its headers.
pub record Site : Type 0 where
  pub verdict : InboundEmail → Verdict
  pub failed_recipient : InboundEmail → String
  pub tenants : List TenantRow
  pub default_slug : Option String
  pub inbox_hub_enabled : ℕ → Bool
  -- the tenant has a status, and an active member
  pub has_status : ℕ → Bool
  pub has_user : ℕ → Bool

abbrev pub count_in : ℕ → List (ℕ × ℕ) → ℕ
count_in tenant counters = elim (get tenant counters) [ none ↦ 0 | some n ↦ n ]

abbrev pub set_count : ℕ → ℕ → List (ℕ × ℕ) → List (ℕ × ℕ)
set_count tenant n [] = (tenant, n) ∷ []
set_count tenant n ((t, m) ∷ cs) =
    if t == tenant then (t, n) ∷ cs else (t, m) ∷ set_count tenant n cs

-- `TicketCounter.next_number`
unfoldable pub next_number : ℕ → List (ℕ × ℕ) → ℕ × List (ℕ × ℕ)
next_number tenant counters =
    let n = count_in tenant counters + 1 in (n, set_count tenant n counters)

-- `find_or_create_contact`
unfoldable pub find_or_create_contact : ℕ → String → List Contact → List Contact
find_or_create_contact tenant email contacts =
    if any (λ c. c.tenant == tenant && str_eq c.email email) contacts
    then contacts
    else contacts ++ (record { tenant = tenant; email = email; email_bouncing = false } ∷ [])

-- A row as the transaction leaves it, with the other tables.
abbrev pub Step : Type 0
Step = InboundEmail × Db

-- `_reject`
abbrev pub reject : InboundEmail → Db → Step
reject e db = (record e { status = rejected }, db)

abbrev pub tenant_of : Site → InboundEmail → Option ℕ
tenant_of site e = elim e.tenant [
  | some t ↦ some t
  | none ↦ elim (resolve_tenant_from_address site.tenants site.default_slug e.recipient) [
    | none ↦ none
    | some t ↦ some t.pk
  ]
]

abbrev pub flag_contact : ℕ → String → Contact → Contact
flag_contact tenant address c =
    if c.tenant == tenant && str_eq c.email address then record c { email_bouncing = true } else c

-- `_handle_bounce`, by the tenant
abbrev pub bounced_for : Site → InboundEmail → Db → Option ℕ → Step
bounced_for site e db none =
    (record e { status = bounced }, record db { bounce_logs = (e.pk, none) ∷ db.bounce_logs })
bounced_for site e db (some tenant) =
    let linked = find_existing_ticket db.emails db.tickets tenant e in
    (
      record e { status = bounced; tenant = some tenant; ticket = or_else linked e.ticket },
      record db {
        bounce_logs = (e.pk, linked) ∷ db.bounce_logs;
        contacts = map (flag_contact tenant (site.failed_recipient e)) db.contacts;
      },
    )

unfoldable pub handle_bounce : Site → InboundEmail → Db → Step
handle_bounce site e db = bounced_for site e db (tenant_of site e)

-- `_add_reply_to_ticket`; what a reply does to the ticket is in `Inbound.Reply`
unfoldable pub add_reply_to_ticket : ℕ → InboundEmail → Db → Step
add_reply_to_ticket ticket e db = if e.reply_is_empty then reject e db else (
  record e { status = reply_added; ticket = some ticket },
  record db { replies = (ticket, e.pk) ∷ db.replies },
)

-- `_create_ticket_from_email` without overrides: the rows of the ticket, of its number and of the
-- email; none when it raises. The deadlines of the ticket are in `Tickets.Escalate`.
unfoldable pub create_ticket_from_email : Site → ℕ → ℕ → InboundEmail → Db → Option Step
create_ticket_from_email site pk tenant e db =
    if site.has_status tenant
    then (let r = next_number tenant db.counters in
        some (
          record e { status = ticket_created; ticket = some pk },
          record db {
            tickets = record { pk = pk; tenant = tenant; number = r.0 } ∷ db.tickets;
            counters = r.1;
          },
        ))
    else none

-- The call of `park_email_in_hub`.
abbrev pub park : InboundEmail → Db → Step
park e db = (record e { status = parked_in_hub }, record db { parked = e.pk ∷ db.parked })

-- From the system user on; none when there is no user, and a ticket cannot be made.
unfoldable pub deliver : Site → ℕ → ℕ → InboundEmail → Db → Option Step
deliver site pk tenant e db =
    if site.has_user tenant
    then (let known = record db { contacts = find_or_create_contact tenant e.sender db.contacts } in
        elim (find_existing_ticket db.emails db.tickets tenant e) [
          | some ticket ↦ some (add_reply_to_ticket ticket e known)
          | none ↦
              if site.inbox_hub_enabled tenant
              then some (park e known)
              else create_ticket_from_email site pk tenant e known
        ])
    else none

abbrev pub same_key : Option (ℕ × ℕ) → ℕ × ℕ → Bool
same_key none k = false
same_key (some j) k = j.0 == k.0 && j.1 == k.1

-- Another row has the key.
unfoldable pub is_duplicate : ℕ → ℕ × ℕ → List InboundEmail → Bool
is_duplicate pk key emails = any (λ e. same_key e.idempotency_key key && not (e.pk == pk)) emails

-- The claim of the key; `raced` when another transaction stores it after the check, so that the
-- save raises IntegrityError. The handler's own save, in `_reject`, then raises as well, since the
-- transaction is broken: nothing of the attempt is kept.
unfoldable pub claim : Site → Bool → ℕ → ℕ → InboundEmail → Db → Option Step
claim site raced pk tenant e db =
    let key : ℕ × ℕ = (tenant, e.message_id) in
    if is_duplicate e.pk key db.emails
    then some (reject e db)
    else if raced
    then none
    else deliver site pk tenant (record e { idempotency_key = some key }) db

-- What follows the filters.
abbrev pub routed : Site → Bool → ℕ → InboundEmail → Db → Verdict → Option ℕ → Option Step
routed site raced pk e db bounce tenant = some (handle_bounce site e db)
routed site raced pk e db auto_reply tenant = some (reject e db)
routed site raced pk e db legitimate none = some (reject e db)
routed site raced pk e db legitimate (some tenant) =
    claim site raced pk tenant (record e { tenant = some tenant }) db

-- What follows the guard on the status.
unfoldable pub accepted : Site → Bool → ℕ → InboundEmail → Db → Option Step
accepted site raced pk e db = routed site raced pk e db (site.verdict e) (tenant_of site e)

abbrev pub is_waiting : Status → Bool
is_waiting pending = true
is_waiting processing = true
is_waiting ticket_created = false
is_waiting reply_added = false
is_waiting parked_in_hub = false
is_waiting sent = false
is_waiting rejected = false
is_waiting bounced = false
is_waiting failed = false

abbrev pub write : InboundEmail → List InboundEmail → List InboundEmail
write e emails = map (λ r. if r.pk == e.pk then e else r) emails

abbrev pub written : Option Step → Option Db
written none = none
written (some (e, db)) = some (record db { emails = write e db.emails })

-- The row that is locked, which is passed over unless it waits.
abbrev pub handled : Site → Bool → ℕ → Db → Option InboundEmail → Option Db
handled site raced pk db none = none
handled site raced pk db (some e) =
    if is_waiting e.status
    then written (accepted site raced pk (record e { status = processing }) db)
    else some db

-- `process_inbound_email`; none when it raises, and nothing is stored
unfoldable pub process_inbound_email : Site → Bool → ℕ → ℕ → Db → Option Db
process_inbound_email site raced pk email db =
    handled site raced pk db (first (keep (λ e. e.pk == email) db.emails))

-- `mark_inbound_failed`
unfoldable pub mark_inbound_failed : ℕ → Db → Db
mark_inbound_failed email db = record db {
  emails = map (λ e. if e.pk == email then record e { status = failed } else e) db.emails;
}

abbrev pub attempted : Bool → ℕ → Db → Option Db → Db
attempted last email db (some after) = after
attempted last email db none = if last then mark_inbound_failed email db else db

-- `process_inbound_email_task`, in one attempt: the last one stores the failure
unfoldable pub process_inbound_email_task : Site → Bool → Bool → ℕ → ℕ → Db → Db
process_inbound_email_task site last raced pk email db =
    attempted last email db (process_inbound_email site raced pk email db)
