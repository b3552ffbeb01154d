-- ===== src/Tickets/Samples.antt =====
-- Concrete statuses and tickets for the tests.
use kanzan.Prelude.{ℕ, refl, true, false, Option, none, some, List, [], ◌∷◌}
use kanzan.Tickets.Rows.{Priority, Status, Ticket}
use kanzan.Tickets.Merge.{Filed, Comment, Body, Desk}
use kanzan.Tickets.Status.Consistent.{IsConsistent}

abbrev pub open_status : Status
open_status = record {
  pk = 1;
  slug = "open";
  is_closed = false;
  is_default = true;
  pauses_sla = false;
}

abbrev pub progress : Status
progress = record {
  pk = 2;
  slug = "in-progress";
  is_closed = false;
  is_default = false;
  pauses_sla = false;
}

abbrev pub waiting : Status
waiting = record {
  pk = 3;
  slug = "waiting";
  is_closed = false;
  is_default = false;
  pauses_sla = true;
}

abbrev pub closed_status : Status
closed_status = record {
  pk = 5;
  slug = "closed";
  is_closed = true;
  is_default = false;
  pauses_sla = false;
}

abbrev pub statuses : List Status
statuses = open_status ∷ progress ∷ waiting ∷ closed_status ∷ []

abbrev pub ticket : Status → Option ℕ → Ticket
ticket s closed_at = record {
  pk = 31;
  priority = Priority.medium;
  queue = none;
  created_at = 100;
  created_by = some 4;
  first_responded_at = none;
  sla_policy = none;
  sla_first_response_due = some 300;
  sla_response_breached = false;
  sla_paused_at = none;
  sla_extended_at = none;
  escalation_count = 0;
  escalated_at = none;
  status = some s;
  status_changed_at = none;
  status_changed_by = none;
  pre_wait_status = none;
  solved_at = none;
  auto_close_task_id = none;
  resolved_at = closed_at;
  closed_at = closed_at;
  sla_resolution_due = some 500;
  sla_resolution_breached = false;
  assignee = none;
  assigned_by = none;
  assigned_at = none;
}

abbrev pub fresh : Ticket
fresh = ticket open_status none

pub fresh-IsConsistent : IsConsistent fresh
fresh-IsConsistent = record {
  closed_when = refl;
  resolved_when = refl;
  solved_when = refl;
  task_when = λ h. refl;
  snapshot_when = λ h. refl;
}

abbrev pub filed : ℕ → Filed
filed pk = record {
  ticket = record fresh { pk = pk };
  tenant = 7;
  number = pk;
  subject = "printer";
  contact = none;
  merged_into = none;
}

abbrev pub comment : ℕ → ℕ → Comment
comment pk object_id = record {
  pk = pk;
  on_ticket = true;
  object_id = object_id;
  author = 4;
  body = Body.text "hello";
  is_internal = false;
}

-- Two tickets: two comments on the first, and one on the second.
abbrev pub desk : Desk
desk = record {
  tickets = filed 31 ∷ filed 32 ∷ [];
  comments = comment 3 31 ∷ comment 2 32 ∷ comment 1 31 ∷ [];
  activities = [];
  attachments = [];
  links = [];
  log = [];
}
