-- ===== src/Agents/Tests.antt =====
-- An agent with one place left, and a ticket.
use kanzan.Prelude.{◌≡◌, refl, true, false, none, some, [], ◌∷◌, arith}
use kanzan.Hub.Store.{Availability, availability_of}
use kanzan.Tickets.Samples.{fresh}
use kanzan.Agents.{Desk, least_loaded, get_available_agent, auto_assign_ticket}
use kanzan.Agents.Capacity.{IsWithin, auto_assign_ticket-IsWithin}

abbrev agent : Availability
agent = record {
  tenant = 7;
  user = 4;
  online = true;
  max_concurrent_tickets = 2;
  current_ticket_count = 1;
  last_activity = none;
  last_seen = none;
  auto_away_outside_hours = false;
  on_duty = true;
}

abbrev desk : Desk
desk = record { rows = agent ∷ []; ticket = fresh; assignments = [] }

given_to_agent : (auto_assign_ticket 7 none (agent ∷ []) 500 desk).0 ≡ some 4
unfolding auto_assign_ticket get_available_agent least_loaded availability_of
given_to_agent = refl

one_place : IsWithin (availability_of 7 4 desk.rows)
unfolding availability_of
one_place = omega arith

auto_assign_ticket-IsWithin_example :
    IsWithin (availability_of 7 4 (auto_assign_ticket 7 none (agent ∷ []) 500 desk).1.rows)
auto_assign_ticket-IsWithin_example =
    auto_assign_ticket-IsWithin 7 none (agent ∷ []) 500 desk 7 4 one_place
