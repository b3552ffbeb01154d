-- ===== src/Tickets/Merge.antt =====
-- apps/tickets/services.py: the merge of a ticket into another one. The rows that hang on tickets
-- stand in tables, the latest first; the key that the database gives to a new comment and to its
-- entry of the timeline is an argument.
pub mod Moves
pub mod Composed
pub mod Twice
mod Tests
use kanzan.Prelude.{
  ℕ, Bool, true, false, ◌&&◌, not, Option, none, some, List, [], ◌∷◌, ◌++◌, ◌==◌, if◌then◌else◌,
  String, keep, first, map, length, any,
}
use kanzan.Tickets.Rows.{Status, Ticket, Event}
use kanzan.Tickets.Status.{or_now}
use kanzan.Tickets.Links.{Link, LinkType, duplicate_of}
use kanzan.Tickets.Pipeline.{handle_ticket_status_change}

-- A ticket with the fields that a merge and a split use.
pub record Filed : Type 0 where
  pub ticket : Ticket
  pub tenant : ℕ
  pub number : ℕ
  pub subject : String
  pub contact : Option ℕ
  pub merged_into : Option ℕ

-- The text of a comment: written by somebody, or by a merge or split with the number of a ticket.
pub data Body : Type 0 where
  text : String → Body
  merged_into_number split_into_number split_from_number : ℕ → Body

-- A row of `Comment`; false if its content type is not the ticket's.
pub record Comment : Type 0 where
  pub pk : ℕ
  pub on_ticket : Bool
  pub object_id : ℕ
  pub author : ℕ
  pub body : Body
  pub is_internal : Bool

-- A row of `TicketActivity`, with the other ticket that it names.
pub record Activity : Type 0 where
  pub pk : ℕ
  pub ticket : ℕ
  pub actor : Option ℕ
  pub event : Event
  pub other : Option ℕ

-- A row of `Attachment`.
pub record Attachment : Type 0 where
  pub pk : ℕ
  pub on_ticket : Bool
  pub object_id : ℕ

-- What `log_activity` is given as changes.
pub data Changes : Type 0 where
  merged_ticket : ℕ → ℕ → ℕ → ℕ → Changes
  split_child_ticket : ℕ → ℕ → Changes
  split_source_ticket : ℕ → Changes

pub record Desk : Type 0 where
  pub tickets : List Filed
  pub comments : List Comment
  pub activities : List Activity
  pub attachments : List Attachment
  pub links : List Link
  -- the audit log: ticket, actor and changes
  pub log : List (ℕ × ℕ × Changes)

pub data Error : Type 0 where
  into_itself other_tenants no_comments foreign_comments no_status no_queue : Error

pub data Outcome (A : Type 0) : Type 0 where
  ok : A → Desk → Outcome A
  value_error : Error → Outcome A
  -- the database refuses a row
  integrity_error : Outcome A

-- `qs.filter(p).update(…)`
module _ {A : Type 0} where
  unfoldable pub update : (A → Bool) → (A → A) → List A → List A
  update p write [] = []
  update p write (a ∷ as_) = (if p a then write a else a) ∷ update p write as_

-- The rows of a table that hang on a ticket.
abbrev pub comment_of : ℕ → Comment → Bool
comment_of t c = c.on_ticket && c.object_id == t

abbrev pub activity_of : ℕ → Activity → Bool
activity_of t a = a.ticket == t

abbrev pub attachment_of : ℕ → Attachment → Bool
attachment_of t a = a.on_ticket && a.object_id == t

abbrev pub comment_to : ℕ → Comment → Comment
comment_to t c = record c { object_id = t }

abbrev pub activity_to : ℕ → Activity → Activity
activity_to t a = record a { ticket = t }

abbrev pub attachment_to : ℕ → Attachment → Attachment
attachment_to t a = record a { object_id = t }

abbrev pub same_type : LinkType → LinkType → Bool
same_type LinkType.duplicate_of LinkType.duplicate_of = true
same_type LinkType.related_to LinkType.related_to = true
same_type LinkType.blocks LinkType.blocks = true
same_type LinkType.blocked_by LinkType.blocked_by = true
same_type _ _ = false

abbrev pub is_link : Link → Link → Bool
is_link l m = l.source == m.source && l.target == m.target && same_type l.link_type m.link_type

-- `TicketLink.objects.get_or_create(…)`
unfoldable pub get_or_create : Link → List Link → List Link
get_or_create l links = if any (is_link l) links then links else l ∷ links

-- The times of the closure, on the instance.
unfoldable pub closed_by : Option Status → ℕ → Ticket → Ticket
closed_by none now t = t
closed_by (some s) now t = record t {
  status = some s;
  closed_at = or_now t.closed_at now;
  resolved_at = or_now t.resolved_at now;
}

-- What `handle_sla_pause_on_status_change`, the signal after the save, writes: the time of the pause
-- and the deadlines, where it saves them, and its entries of the timeline with their keys, the latest
-- first. `Tickets.Merge.Composed` has it from `Tickets.Pause`.
pub record Signal : Type 0 where
  pub paused_at : Option (Option ℕ)
  pub dues : Option (Option ℕ × Option ℕ)
  pub entries : List (ℕ × Event)

abbrev pub with_pause : Option (Option ℕ) → Ticket → Ticket
with_pause none t = t
with_pause (some paused_at) t = record t { sla_paused_at = paused_at }

abbrev pub with_dues : Option (Option ℕ × Option ℕ) → Ticket → Ticket
with_dues none t = t
with_dues (some dues) t = record t { sla_first_response_due = dues.0; sla_resolution_due = dues.1 }

-- The save of the secondary ticket over its row, with the signals before and after it.
unfoldable pub save_secondary : Signal → ℕ → ℕ → Ticket → Filed → Filed
save_secondary signal primary now secondary row =
    let saved = handle_ticket_status_change now row.ticket secondary in
    record row {
      ticket = with_dues signal.dues (
          with_pause signal.paused_at (record row.ticket {
            status = saved.status;
            closed_at = saved.closed_at;
            resolved_at = saved.resolved_at;
          }));
      merged_into = some primary;
    }

abbrev pub signal_entry : Filed → ℕ × Event → Activity
signal_entry secondary (key, event) = record {
  pk = key;
  ticket = secondary.ticket.pk;
  actor = none;
  event = event;
  other = none;
}

abbrev pub first_closed : List Status → Option Status
first_closed statuses = first (keep (λ s. s.is_closed) statuses)

abbrev pub has_pk : ℕ → Filed → Bool
has_pk pk f = f.ticket.pk == pk

-- The comment on the secondary ticket, and the entry in the timeline of the primary one.
abbrev pub merge_comment : Filed → Filed → ℕ → ℕ → Comment
merge_comment primary secondary actor key = record {
  pk = key;
  on_ticket = true;
  object_id = secondary.ticket.pk;
  author = actor;
  body = merged_into_number primary.number;
  is_internal = true;
}

abbrev pub merge_activity : Filed → Filed → ℕ → ℕ → Activity
merge_activity primary secondary actor key = record {
  pk = key;
  ticket = primary.ticket.pk;
  actor = some actor;
  event = Event.status_changed;
  other = some secondary.number;
}

-- The body of `merge_tickets` behind its two tests; the statuses stand in their order.
unfoldable pub merged : Signal → List Status → Filed → Filed → ℕ → ℕ → ℕ → Desk → Desk
merged signal statuses primary secondary actor key now d =
    let p = primary.ticket.pk in
    let s = secondary.ticket.pk in
    let closing = closed_by (first_closed statuses) now secondary.ticket in
    record {
      tickets = update (has_pk s) (save_secondary signal p now closing) d.tickets;
      comments =
          merge_comment primary secondary actor key
          ∷ update (comment_of s) (comment_to p) d.comments;
      activities =
          merge_activity primary secondary actor key
          ∷ (map (signal_entry secondary) signal.entries
              ++ update (activity_of s) (activity_to p) d.activities);
      attachments = update (attachment_of s) (attachment_to p) d.attachments;
      links = get_or_create (record { source = s; target = p; link_type = duplicate_of }) d.links;
      log =
          (
            p,
            actor,
            merged_ticket secondary.number (length (keep (comment_of s) d.comments))
                (length (keep (activity_of s) d.activities))
                (length (keep (attachment_of s) d.attachments)),
          )
          ∷ d.log;
    }

-- `merge_tickets`
unfoldable pub merge_tickets :
    Signal → List Status → Filed → Filed → ℕ → ℕ → ℕ → Desk → Outcome Filed
merge_tickets signal statuses primary secondary actor key now d =
    if primary.ticket.pk == secondary.ticket.pk
    then value_error into_itself
    else if not (primary.tenant == secondary.tenant)
    then value_error other_tenants
    else ok primary (merged signal statuses primary secondary actor key now d)
