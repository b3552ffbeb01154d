-- ===== src/Tickets/Split.antt =====
-- apps/tickets/services.py: the split of comments off a ticket into a new one. The keys that the
-- database gives to the new rows, and the number of the new ticket, are arguments.
pub mod Accepts
pub mod Rejoins
mod Tests
use kanzan.Prelude.{
  ℕ, Bool, true, false, ◌&&◌, not, Option, none, some, List, [], ◌∷◌, ◌==◌, if◌then◌else◌, String,
  keep, first, length, is_in,
}
use kanzan.Sla.Clock.{Zones, Tenant}
use kanzan.Tickets.Rows.{Status, Ticket, Priority, Event}
use kanzan.Tickets.Links.{related_to}
use kanzan.Tickets.Escalate.{SlaPolicy, initialize_sla}
use kanzan.Tickets.Merge.{
  Filed, Comment, Activity, Desk, Outcome, ok, value_error, integrity_error, no_comments,
  foreign_comments, no_status, no_queue, update, comment_of, comment_to, split_into_number,
  split_from_number, split_child_ticket, split_source_ticket,
}

-- `new_ticket_data`; a priority of none is a key that is missing, and one of some none a key whose
-- value is None.
pub record NewTicket : Type 0 where
  pub subject : String
  pub queue : Option ℕ
  pub priority : Option (Option Priority)

pub record Keys : Type 0 where
  pub child : ℕ
  pub number : ℕ
  pub on_source : ℕ
  pub on_child : ℕ

-- The comments that are selected, of those of the source.
abbrev pub is_selected : ℕ → List ℕ → Comment → Bool
is_selected source ids c = comment_of source c && is_in c.pk ids

-- `comments.count() == len(comment_ids)`
unfoldable pub all_belong : ℕ → List ℕ → List Comment → Bool
all_belong source ids cs = length (keep (is_selected source ids) cs) == length ids

-- `filter(is_default=True).first()`, or the first status there is
unfoldable pub default_status : List Status → Option Status
default_status statuses = elim (first (keep (λ s. s.is_default) statuses)) [
  | none ↦ first statuses
  | some s ↦ some s
]

-- `if queue_id: Queue.objects.get(pk=queue_id)`; false is a ValueError
abbrev pub has_queue : List ℕ → Option ℕ → Bool
has_queue queues none = true
has_queue queues (some q) = is_in q queues

-- `new_ticket_data.get("priority", source.priority)`
abbrev pub given_or : Option (Option Priority) → Priority → Option Priority
given_or none p = some p
given_or (some q) p = q

abbrev pub time_if : Option ℕ → ℕ → Option ℕ
time_if none now = none
time_if (some a) now = some now

-- The ticket before its deadlines.
abbrev pub child_ticket : Filed → Status → Priority → NewTicket → ℕ → ℕ → ℕ → Ticket
child_ticket source status priority fields actor pk now = record {
  pk = pk;
  priority = priority;
  queue = fields.queue;
  created_at = now;
  created_by = some actor;
  first_responded_at = none;
  sla_policy = none;
  sla_first_response_due = none;
  sla_response_breached = false;
  sla_paused_at = none;
  sla_extended_at = none;
  escalation_count = 0;
  escalated_at = none;
  status = some status;
  status_changed_at = none;
  status_changed_by = none;
  pre_wait_status = none;
  solved_at = none;
  auto_close_task_id = none;
  resolved_at = none;
  closed_at = none;
  sla_resolution_due = none;
  sla_resolution_breached = false;
  assignee = source.ticket.assignee;
  assigned_by = some actor;
  assigned_at = time_if source.ticket.assignee now;
}

-- The system comments on the source and on the child.
abbrev pub source_comment : Filed → Keys → ℕ → Comment
source_comment source keys actor = record {
  pk = keys.on_source;
  on_ticket = true;
  object_id = source.ticket.pk;
  author = actor;
  body = split_into_number keys.number;
  is_internal = true;
}

abbrev pub child_comment : Filed → Keys → ℕ → Comment
child_comment source keys actor = record {
  pk = keys.on_child;
  on_ticket = true;
  object_id = keys.child;
  author = actor;
  body = split_from_number source.number;
  is_internal = true;
}

abbrev pub source_activity : Filed → Keys → ℕ → Activity
source_activity source keys actor = record {
  pk = keys.on_source;
  ticket = source.ticket.pk;
  actor = some actor;
  event = Event.status_changed;
  other = some keys.number;
}

abbrev pub child_activity : Filed → Keys → ℕ → Activity
child_activity source keys actor = record {
  pk = keys.on_child;
  ticket = keys.child;
  actor = some actor;
  event = Event.created;
  other = some source.number;
}

-- The rows after the split.
unfoldable pub split_off : Filed → Filed → List ℕ → ℕ → Keys → Desk → Desk
split_off source child ids actor keys d =
    let s = source.ticket.pk in
    record {
      tickets = child ∷ d.tickets;
      comments =
          child_comment source keys actor
          ∷ source_comment source keys actor
          ∷ update (is_selected s ids) (comment_to keys.child) d.comments;
      activities =
          child_activity source keys actor ∷ source_activity source keys actor ∷ d.activities;
      attachments = d.attachments;
      links = record { source = keys.child; target = s; link_type = related_to } ∷ d.links;
      log =
          (keys.child, actor, split_source_ticket source.number)
          ∷ (
            s,
            actor,
            split_child_ticket keys.number (length (keep (is_selected s ids) d.comments)),
          )
          ∷ d.log;
    }

module _ (z : Zones) (tenant : Tenant) where
  -- The child ticket with its deadlines.
  abbrev pub child_of :
      List SlaPolicy → Filed → Status → Priority → NewTicket → ℕ → Keys → ℕ → Filed
  child_of policies source status priority fields actor keys now = record {
    ticket =
        initialize_sla z tenant policies now
          (child_ticket source status priority fields actor keys.child now);
    tenant = source.tenant;
    number = keys.number;
    subject = fields.subject;
    contact = source.contact;
    merged_into = none;
  }

  -- The save of the child, which raises without a priority, since the column is NOT NULL.
  abbrev pub saved :
      Option Priority
      → List SlaPolicy
      → Status
      → Filed
      → List ℕ
      → ℕ
      → NewTicket
      → Keys
      → ℕ
      → Desk
      → Outcome Filed
  saved none policies status source ids actor fields keys now d = integrity_error
  saved (some priority) policies status source ids actor fields keys now d =
      let child = child_of policies source status priority fields actor keys now in
      ok child (split_off source child ids actor keys d)

  abbrev pub split_with :
      List SlaPolicy
      → Option Status
      → List ℕ
      → Filed
      → List ℕ
      → ℕ
      → NewTicket
      → Keys
      → ℕ
      → Desk
      → Outcome Filed
  split_with policies none queues source ids actor fields keys now d = value_error no_status
  split_with policies (some status) queues source ids actor fields keys now d =
      if has_queue queues fields.queue
      then saved (given_or fields.priority source.ticket.priority) policies status source ids actor
          fields keys now d
      else value_error no_queue

  -- `split_ticket`, with the policies, statuses and queues of the tenant
  unfoldable pub split_ticket :
      List SlaPolicy
      → List Status
      → List ℕ
      → Filed
      → List ℕ
      → ℕ
      → NewTicket
      → Keys
      → ℕ
      → Desk
      → Outcome Filed
  split_ticket policies statuses queues source [] actor fields keys now d = value_error no_comments
  split_ticket policies statuses queues source (i ∷ ids) actor fields keys now d =
      if all_belong source.ticket.pk (i ∷ ids) d.comments
      then split_with policies (default_status statuses) queues source (i ∷ ids) actor fields keys
          now d
      else value_error foreign_comments
