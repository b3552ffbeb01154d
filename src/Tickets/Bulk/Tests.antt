-- ===== src/Tickets/Bulk/Tests.antt =====
-- Actions on two concrete tickets, of which one is closed.
use kanzan.Prelude.{◌≡◌, refl, false, none, some, List, [], ◌∷◌, String, length, map, keep}
use kanzan.Tickets.Status.{
  transition_ticket_status, validate_status_transition, allowed_transitions,
}
use kanzan.Tickets.Samples.{statuses, open_status, closed_status, ticket, fresh}
use kanzan.Tickets.Bulk.{Tagged, Action, Office, act, bulk_update_tickets}
use kanzan.Tickets.Bulk.Each.{
  settled, succeeded, reported, bulk_update_tickets-each, bulk_update_tickets-unchecked,
}

-- The tags as they come.
as_listed : List String → List String
as_listed tags = tags

abbrev office : Office
office = record { users = 4 ∷ []; members = 4 ∷ []; statuses = statuses; auto_transition = none }

abbrev closed_row : Tagged
closed_row = record {
  ticket = ticket closed_status (some 400);
  number = 12;
  tags = [];
  is_deleted = false;
  deleted_at = none;
  deleted_by = none;
}

abbrev two_rows : List Tagged
two_rows = closed_row ∷ record closed_row { ticket = fresh; number = 13 } ∷ []

bulk_update_tickets-each_example :
    let o = bulk_update_tickets as_listed office 4 500 (Action.change_status (some 1)) two_rows in
    let one = act as_listed office 4 500 (Action.change_status (some 1)) in
    (o.rows ≡ map (λ r. settled r (one r)) two_rows)
    × (o.details ≡ map (λ r. reported (Action.change_status (some 1)) r (one r)) two_rows)
    × (o.count ≡ length (keep (λ r. succeeded (one r)) two_rows))
bulk_update_tickets-each_example =
    bulk_update_tickets-each as_listed office 4 500 (Action.change_status (some 1)) two_rows

bulk_update_tickets-unchecked_example :
    let o =
      bulk_update_tickets as_listed office 4 500
        (Action.change_status (some 1))
        (closed_row ∷ []) in
    (o.count ≡ 1) × (map (λ (x : Tagged). x.ticket.status) o.rows ≡ some open_status ∷ [])
unfolding transition_ticket_status validate_status_transition allowed_transitions
bulk_update_tickets-unchecked_example =
    bulk_update_tickets-unchecked as_listed office 4 500 closed_row 1 open_status refl refl
