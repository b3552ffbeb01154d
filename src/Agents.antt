-- ===== src/Agents.antt =====
-- apps/agents/services.py and views.py: the load of an agent, and the assignment of a ticket to the
-- agent with the least. The counter is the one that the inbox hub counts its emails in.
pub mod Capacity
mod Tests
use kanzan.Prelude.{
  ℕ, ◌+◌, Bool, true, false, ◌&&◌, not, Option, none, some, List, [], ◌∷◌, ◌==◌, ltb, leb,
  if◌then◌else◌, keep, first, length, map,
}
use kanzan.Tickets.Rows.{Ticket}
use kanzan.Tickets.Status.{is_closed}
use kanzan.Tickets.Merge.{Filed}
use kanzan.Hub.Store.{Availability, is_row_of, update_where, availability_of}
use kanzan.Hub.Reassign.{is_key}
use kanzan.Hub.Assignment.{count_up}

-- A ticket of the agent that is not closed; a deleted one counts.
abbrev pub is_open_of : Availability → Filed → Bool
is_open_of a f =
    f.tenant == a.tenant && (is_key f.ticket.assignee a.user && not (is_closed f.ticket.status))

-- `update_ticket_count`
unfoldable pub update_ticket_count : List Filed → Availability → Availability
update_ticket_count tickets a = record a {
  current_ticket_count = length (keep (is_open_of a) tickets);
}

-- `AgentAvailabilityViewSet.workload`, over the rows of the tenant
unfoldable pub workload : ℕ → List Filed → List Availability → List Availability
workload tenant tickets [] = []
workload tenant tickets (a ∷ rows) =
    (if a.tenant == tenant then update_ticket_count tickets a else a) ∷ workload tenant tickets rows

abbrev pub has_room : Availability → Bool
has_room a = a.online && ltb a.current_ticket_count a.max_concurrent_tickets

-- `base_qs`
abbrev pub available : ℕ → List Availability → List Availability
available tenant rows = keep (λ a. a.tenant == tenant && has_room a) rows

-- `order_by("current_ticket_count").first()`; of equal rows the first one is taken
abbrev pub lesser : Availability → Option Availability → Availability
lesser a none = a
lesser a (some b) = if leb a.current_ticket_count b.current_ticket_count then a else b

unfoldable pub least_loaded : List Availability → Option Availability
least_loaded [] = none
least_loaded (a ∷ rows) = some (lesser a (least_loaded rows))

abbrev pub preferred : Option ℕ → List Availability → Option Availability
preferred none rows = none
preferred (some user) rows = first (keep (λ a. a.user == user) rows)

abbrev pub or_least : Option Availability → List Availability → Option Availability
or_least none rows = least_loaded rows
or_least (some a) rows = some a

-- `get_available_agent`, with the default assignee of the queue
unfoldable pub get_available_agent : ℕ → Option ℕ → List Availability → Option Availability
get_available_agent tenant default_assignee rows =
    or_least (preferred default_assignee (available tenant rows)) (available tenant rows)

-- The assignments that are recorded: ticket and user.
pub record Desk : Type 0 where
  pub rows : List Availability
  pub ticket : Ticket
  pub assignments : List (ℕ × ℕ)

abbrev pub assign_locked : ℕ → Option Availability → Desk → Option ℕ × Desk
assign_locked now none d = (none, d)
assign_locked now (some locked) d =
    if has_room locked
    then (
      some locked.user,
      record {
        rows = update_where (is_row_of locked.tenant locked.user) (count_up now) d.rows;
        ticket = record d.ticket { assignee = some locked.user };
        assignments = (d.ticket.pk, locked.user) ∷ d.assignments;
      },
    )
    else (none, d)

abbrev pub assign_to_agent : ℕ → Option Availability → Desk → Option ℕ × Desk
assign_to_agent now none d = (none, d)
assign_to_agent now (some agent) d =
    assign_locked now (availability_of agent.tenant agent.user d.rows) d

-- `auto_assign_ticket`: the agent is chosen among rows that were read before, and its row is locked
-- and read again
unfoldable pub auto_assign_ticket : ℕ → Option ℕ → List Availability → ℕ → Desk → Option ℕ × Desk
auto_assign_ticket tenant default_assignee seen now d =
    assign_to_agent now (get_available_agent tenant default_assignee seen) d
