-- ===== src/Tickets/Bulk/Each.antt =====
-- What an action on many tickets does to each (apps/tickets/services.py).
use kanzan.Prelude.{
  ℕ, ◌≡◌, refl, Bool, true, false, Option, none, some, List, [], ◌∷◌, ◌==◌, String, length, first,
  map, arith, keep, Option-cases, inl, inr,
}
use kanzan.Tickets.Rows.{Status, Ticket, Effect, raised, validation_error}
use kanzan.Tickets.Status.{
  is_same, change_ticket_status, transition_ticket_status, validate_status_transition,
}
use kanzan.Tickets.Status.Consistent.{changed-status}
use kanzan.Tickets.Bulk.{Tagged, Action, Detail, Office, act, bulk_update_tickets}

-- The row after an action that may fail.
abbrev pub settled : Tagged → Option (Tagged × List Effect) → Tagged
settled r none = r
settled r (some (after, effects)) = after

abbrev pub succeeded : Option (Tagged × List Effect) → Bool
succeeded none = false
succeeded (some p) = true

abbrev pub reported : Action → Tagged → Option (Tagged × List Effect) → Detail
reported action r none = Detail.failed r.number
reported Action.delete r (some p) = Detail.deleted r.number
reported _ r (some p) = Detail.updated r.number

-- A change that is refused is to another status.
refused-is_same :
    (t : Ticket) (s : Status) (actor : Option ℕ) (now : ℕ)
    → transition_ticket_status t s actor now ≡ raised validation_error
    → is_same t.status s ≡ false
unfolding transition_ticket_status validate_status_transition
refused-is_same t s actor now e = ground (arith, e)

module _ (set_list : List String → List String) (office : Office) (user now : ℕ) where
  -- Each ticket is changed as by the action alone, or kept where the action fails on it, whatever
  -- becomes of the others; the count is the number of tickets on which it did not fail, and there is
  -- one detail for each ticket, in their order, which says what became of it.
  pub bulk_update_tickets-each :
      (action : Action) (rs : List Tagged)
      → let o = bulk_update_tickets set_list office user now action rs in
        let one = act set_list office user now action in
        (o.rows ≡ map (λ r. settled r (one r)) rs)
        × (o.details ≡ map (λ r. reported action r (one r)) rs)
        × (o.count ≡ length (keep (λ r. succeeded (one r)) rs))
  unfolding bulk_update_tickets
  bulk_update_tickets-each action [] = (refl, refl, refl)
  bulk_update_tickets-each action (r ∷ rs) =
      let (rows, details, count) = bulk_update_tickets-each action rs in
      elim (Option-cases (act set_list office user now action r)) [
        | inl e ↦ ground (arith, rows, details, count, e)
        | inr (p, e) ↦ ground (arith, rows, details, count, e)
      ]

  -- A bulk change of status does not look at the transition map: it gives a ticket the status that is
  -- asked for, and counts it, also where `transition_ticket_status` refuses the change.
  pub bulk_update_tickets-unchecked :
      (r : Tagged) (pk : ℕ) (s : Status)
      → first (keep (λ x. x.pk == pk) office.statuses) ≡ some s
      → transition_ticket_status r.ticket s (some user) now ≡ raised validation_error
      → let o =
          bulk_update_tickets set_list office user now (Action.change_status (some pk)) (r ∷ []) in
        (o.count ≡ 1) × (map (λ (x : Tagged). x.ticket.status) o.rows ≡ some s ∷ [])
  unfolding bulk_update_tickets act change_ticket_status
  bulk_update_tickets-unchecked r pk s found refused =
      let other = refused-is_same r.ticket s (some user) now refused in
      let taken = changed-status r.ticket.status s (some user) now r.ticket in
      ground (arith, found, other, taken)
