-- ===== src/Inbound/Tests.antt =====
-- Runs of the processing of emails at concrete rows.
use kanzan.Prelude.{ℕ, ◌≡◌, refl, true, false, none, some, List, [], ◌∷◌, get_elem?, arith, inl}
use mathlib.Core.Path.{subst, sym}
use kanzan.Sla.Clock.{get_business_config}
use kanzan.Sla.Count.Returns.{TimesOfDay}
use kanzan.Sla.Samples.{only_utc, shop_tenant, shop_config, shop-IsTimetable, monday_afternoon}
use kanzan.Tickets.Rows.{Effect}
use kanzan.Tickets.Status.{changed, resume_target}
use kanzan.Tickets.Samples.{open_status, waiting, statuses, fresh}
use kanzan.Tickets.Pause.{Clock, save_status}
use kanzan.Tickets.Pause.Clocked.{IsClocked, open_rows, delayed}
use kanzan.Tickets.Pause.Resumes.{lasted}
use kanzan.Inbound.Rows.{
  Status, pending, ticket_created, InboundEmail, find_existing_ticket, match_first,
  match_by_subject, ticket_of_message,
}
use kanzan.Inbound.Pipeline.{
  Db, Site, legitimate, accepted, process_inbound_email, process_inbound_email_task, claim,
  is_duplicate, deliver, create_ticket_from_email, next_number, find_or_create_contact,
}
use kanzan.Inbound.Pipeline.Unique.{IsClaimed}
use kanzan.Inbound.Pipeline.Once.{Attempt, attempts, attempts_once}
use kanzan.Inbound.Reply.{reply, reply_once}

shop-TimesOfDay : TimesOfDay only_utc (get_business_config only_utc shop_tenant)
shop-TimesOfDay = subst (TimesOfDay only_utc) (sym shop_config) shop-IsTimetable

abbrev running : Clock
running = record { ticket = fresh; rows = [] }

running-IsClocked : IsClocked running
running-IsClocked = record { open_when = refl; stamped_when = refl }

resumes_open :
    resume_target statuses (changed fresh.status waiting none 600 fresh) ≡ some open_status
unfolding changed resume_target
resumes_open = refl

reply_once_example :
    (paused : Clock × List Effect) × (done : Clock × List Effect) × (save_status only_utc
        shop_tenant waiting none 600 running
      ≡ some paused)
    × (reply only_utc shop_tenant statuses true 4 monday_afternoon paused.0 ≡ some done)
    × (done.0.ticket.status ≡ some open_status)
    × (open_rows done.0.rows ≡ 0)
    × (done.0.ticket.sla_first_response_due
        ≡ delayed only_utc shop_tenant
            (lasted only_utc shop_tenant shop-TimesOfDay 600 monday_afternoon)
            (some 300))
    × (done.0.ticket.sla_resolution_due
        ≡ delayed only_utc shop_tenant
            (lasted only_utc shop_tenant shop-TimesOfDay 600 monday_afternoon)
            (some 500))
reply_once_example =
    reply_once only_utc shop_tenant statuses shop-TimesOfDay waiting open_status none 4 600
      monday_afternoon running running-IsClocked refl refl refl refl refl refl resumes_open

-- Two copies of one message, the second of which is fetched again.
abbrev email : ℕ → InboundEmail
email pk = record {
  pk = pk;
  tenant = some 7;
  message_id = 70;
  in_reply_to = none;
  references = [];
  subject_number = none;
  sender = "ann@example.org";
  recipient = record { text = "support@crm.io"; local_part = "support"; plus_part = none };
  reply_is_empty = false;
  status = pending;
  ticket = none;
  idempotency_key = none;
}

abbrev db : Db
db = record {
  emails = email 1 ∷ email 2 ∷ [];
  tickets = [];
  replies = [];
  parked = [];
  contacts = [];
  bounce_logs = [];
  counters = [];
}

abbrev site : Site
site = record {
  verdict = λ e. legitimate;
  failed_recipient = λ e. "";
  tenants = [];
  default_slug = none;
  inbox_hub_enabled = λ t. false;
  has_status = λ t. true;
  has_user = λ t. true;
}

db-IsClaimed : IsClaimed db.emails
db-IsClaimed = record {
  own = (inl refl, (inl refl, tt));
  unique = λ k. (1, (inl refl, (inl refl, tt)));
}

-- Both are taken up, the first twice.
abbrev runs : List Attempt
runs = (false, (false, (30, 1))) ∷ (false, (false, (31, 1))) ∷ (true, (false, (32, 2))) ∷ []

abbrev delivered : InboundEmail
delivered = record (email 1) {
  status = ticket_created;
  ticket = some 30;
  idempotency_key = some (7, 70);
}

first_delivered : get_elem? (attempts site runs db).emails 0 ≡ some delivered
unfolding process_inbound_email_task process_inbound_email accepted claim is_duplicate deliver
    find_existing_ticket match_first match_by_subject ticket_of_message create_ticket_from_email
    next_number find_or_create_contact
first_delivered = refl

attempts_once_example : delivered.pk ≡ delivered.pk
attempts_once_example =
    attempts_once site runs db 0 0 7 delivered delivered db-IsClaimed first_delivered
      first_delivered refl refl refl refl refl

-- The second copy is rejected.
second_rejected :
    get_elem? (attempts site runs db).emails 1
    ≡ some (record (email 2) { status = Status.rejected })
unfolding process_inbound_email_task process_inbound_email accepted claim is_duplicate deliver
    find_existing_ticket match_first match_by_subject ticket_of_message create_ticket_from_email
    next_number find_or_create_contact
second_rejected = ground arith
