-- ===== src/Hub/Tests.antt =====
-- Runs of the inbox hub's model at concrete rows.
use kanzan.Prelude.{
  ℕ, ◌+◌, ◌≤◌, ◌≡◌, refl, true, false, Option, none, some, [], ◌∷◌, if◌then◌else◌, max,
}
use mathlib.Core.Option
use kanzan.Hub.State.{State, is_terminal, same_state}
use kanzan.Hub.Store.{
  HubEmail, InboundStatus, Error, raised, save_inbound, Priority, Availability, Db, Now, ok, find,
  availability_of, is_member,
}
use kanzan.Hub.Services.{convert_locked, convert_to_ticket, stamp}
use kanzan.Hub.Services.Lifecycle.{reread, convert_to_ticket_once}
use kanzan.Hub.Reassign.{reassign_locked, reassign_hub_email, is_key}
use kanzan.Hub.Reassign.Load.{load, shifted, reassign_hub_email_done}
use kanzan.Hub.Assignment.{cannot_take, drain_department_backlog}
use kanzan.Hub.Assignment.Once.{is_free}
use kanzan.Hub.Assignment.Drain.{drain_department_backlog-Drained}

-- An email of tenant 1 in a state, with an assignee.
abbrev pub email : State → Option ℕ → HubEmail
email state assignee = record {
  pk = 5;
  tenant = 1;
  inbound = some 9;
  contact = none;
  department = some 3;
  queue = none;
  assignee = assignee;
  state = state;
  priority = Priority.normal;
  category = "";
  sla_response_due_at = none;
  sla_resolution_due_at = none;
  first_responded_at = none;
  first_assigned_at = none;
  escalation_count = 0;
  escalated_to = none;
  converted_ticket = none;
  dismissed_at = none;
  dismissed_by = none;
  dismissal_reason = "";
}

abbrev pub agent : ℕ → ℕ → Availability
agent user count = record {
  tenant = 1;
  user = user;
  online = true;
  max_concurrent_tickets = 2;
  current_ticket_count = count;
  last_activity = none;
  last_seen = some 990;
  auto_away_outside_hours = false;
  on_duty = true;
}

abbrev pub rows : HubEmail → Db
rows e = record {
  emails = e ∷ [];
  inbounds = [];
  availability = agent 7 1 ∷ agent 8 0 ∷ [];
  assignments = [];
  members = (1, 7) ∷ (1, 8) ∷ [];
  leads = (3, 8) ∷ [];
  tickets = [];
  log = [];
  live = [];
  on_commit = [];
}

abbrev pub present : Now
present = record { now = 1000; ttl = 90 }

abbrev pub new_email : HubEmail
new_email = email State.new none

abbrev pub new_rows : Db
new_rows = rows new_email

abbrev held_email : HubEmail
held_email = email State.assigned (some 7)

abbrev held_rows : Db
held_rows = rows held_email

pub found : find 5 new_rows.emails ≡ some new_email
unfolding find
found = refl

-- The row that another request has dismissed in between.
abbrev dismissed_email : HubEmail
dismissed_email = email State.dismissed none

convert_to_ticket_once_example :
    let db' = (convert_locked (reread new_email new_email) 7 31 1000 new_rows).1 in
    (convert_to_ticket true new_email 7 31 1000 new_rows ≡ ok (31, db'))
    × (convert_to_ticket false new_email 7 31 1000 new_rows ≡ raised Error.no_status)
    × (db'.tickets ≡ 31 ∷ [])
    × (db'.inbounds
        ≡ save_inbound
            (some 9)
            (λ i. record i { status = InboundStatus.ticket_created; ticket = some 31 })
            new_rows.inbounds)
    × (row' : HubEmail) × (find 5 db'.emails ≡ some row')
    × (row'.converted_ticket ≡ some 31)
    × (convert_to_ticket false dismissed_email 8 32 1001 db' ≡ ok (31, db'))
convert_to_ticket_once_example =
    convert_to_ticket_once false new_email dismissed_email new_email 7 8 31 32 1000 1001 new_rows
      found refl refl

found_held : find 5 held_rows.emails ≡ some held_email
unfolding find
found_held = refl

member : is_member 1 8 held_rows.members ≡ true
unfolding is_member
member = refl

-- Agent 7 hands the email over to agent 8.
reassign_hub_email_done_example :
    let (he', db') = reassign_locked held_email 8 (some 7) 1000 held_rows in
    (reassign_hub_email held_email 8 (some 7) 1000 held_rows ≡ ok (he', db'))
    × (find 5 db'.emails ≡ some he')
    × (he'.assignee ≡ some 8)
    × (same_state he'.state State.new ≡ false)
    × (is_terminal he'.state ≡ false)
    × (he'.first_responded_at ≡ (if is_key (some 7) 8 then stamp none 1000 else none))
    × (load 1 7 db' ≡ Option.map (shifted (some 7) 8 7) (load 1 7 held_rows))
reassign_hub_email_done_example =
    reassign_hub_email_done held_email held_email 8 7 1000 (some 7) held_rows found_held member refl

seen : availability_of 1 7 new_rows.availability ≡ some (agent 7 1)
unfolding availability_of
seen = refl

can_take : cannot_take present (availability_of 1 7 new_rows.availability) ≡ false
unfolding availability_of
can_take = refl

free : is_free new_email ≡ true
unfolding same_state
free = refl

drain_department_backlog-Drained_example :
    (r : ℕ × Db) × (a' : Availability) × (drain_department_backlog true
        (3 ∷ [])
        7
        1
        present
        new_rows
      ≡ some r)
    × (availability_of 1 7 r.1.availability ≡ some a')
    × (a'.current_ticket_count ≡ 1 + r.0)
    × (a'.max_concurrent_tickets ≡ 2)
    × (a'.current_ticket_count ≤ max 1 2)
drain_department_backlog-Drained_example =
    drain_department_backlog-Drained true (3 ∷ []) 7 1 present new_rows (agent 7 1) seen
