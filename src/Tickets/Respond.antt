-- ===== src/Tickets/Respond.antt =====
-- apps/tickets/services.py: the first response to a ticket. A caller holds a copy of the row, which
-- may be older than the row; the updates are made where the row still fits their filter.
use kanzan.Prelude.{
  ℕ, ◌≡◌, refl, ap, ◌∙◌, Bool, true, false, ◌&&◌, ◌||◌, not, Option, none, some, List, [], ◌∷◌,
  ◌++◌, ◌==◌, ltb, if◌then◌else◌, arith,
}
use mathlib.Core.List.{append-nil}
use kanzan.Tickets.Rows.{
  Ticket, Event, Effect, ticket_activity, log_activity, emit_sla_first_response_breached,
}
use kanzan.Tickets.Pause.{is_missing}

-- `actor and actor.pk == ticket.created_by_id`
abbrev pub is_creator : Option ℕ → Option ℕ → Bool
is_creator none created_by = false
is_creator (some a) none = false
is_creator (some a) (some c) = a == c

-- The first response lies after the deadline.
abbrev pub is_late : Option ℕ → Option ℕ → Bool
is_late none responded = false
is_late (some due) none = false
is_late (some due) (some at) = ltb due at

-- `refresh_from_db` of the fields that the services read again
abbrev pub refreshed : Ticket → Ticket → Ticket
refreshed ticket row = record ticket {
  first_responded_at = row.first_responded_at;
  sla_first_response_due = row.sla_first_response_due;
  sla_response_breached = row.sla_response_breached;
}

-- `_check_first_response_breach`, of a copy and its row
unfoldable pub check_first_response_breach : Ticket → Ticket → Ticket × List Effect
check_first_response_breach ticket row =
    if ticket.sla_response_breached
    then (row, [])
    else if is_late ticket.sla_first_response_due ticket.first_responded_at
    then (if row.sla_response_breached
        then (row, [])
        else (record row { sla_response_breached = true }, emit_sla_first_response_breached ∷ []))
    else (row, [])

-- The response that takes effect on the row.
unfoldable pub respond : ℕ → Ticket → Ticket → Ticket × List Effect
unfolding check_first_response_breach
respond now ticket row =
    let stamped = record row { first_responded_at = some now } in
    let r = check_first_response_breach (refreshed ticket stamped) stamped in
    (r.0, ticket_activity Event.first_response ∷ log_activity Event.first_response ∷ r.1)

-- `record_first_response`: the row afterwards, and what is written and sent
unfoldable pub record_first_response : Option ℕ → ℕ → Ticket → Ticket → Ticket × List Effect
record_first_response actor now ticket row =
    if not (is_missing ticket.first_responded_at)
    then (row, [])
    else if is_creator actor ticket.created_by
    then (row, [])
    else if is_missing row.first_responded_at
    then respond now ticket row
    else (row, [])

-- A call: its actor, its time and the copy of the row that its caller holds.
pub record Call : Type 0 where
  pub actor : Option ℕ
  pub now : ℕ
  pub ticket : Ticket

-- Calls that reach the row one after another.
pub responses : List Call → Ticket → Ticket × List Effect
responses [] row = (row, [])
responses (c ∷ cs) row =
    let r = record_first_response c.actor c.now c.ticket row in
    let rest = responses cs r.0 in (rest.0, r.1 ++ rest.1)

record_first_response_after :
    (actor : Option ℕ) (now : ℕ) (ticket row : Ticket) (t : ℕ)
    → row.first_responded_at ≡ some t
    → record_first_response actor now ticket row ≡ (row, [])
unfolding record_first_response
record_first_response_after actor now ticket row t at = ground arith

responses_after :
    (cs : List Call) (row : Ticket) (t : ℕ)
    → row.first_responded_at ≡ some t
    → responses cs row ≡ (row, [])
unfolding responses
responses_after [] row t at = refl
responses_after (c ∷ cs) row t at =
    rw (record_first_response_after c.actor c.now c.ticket row t at) (responses_after cs row t at)

-- The row that the first response leaves, and what is written and sent.
abbrev pub answered : ℕ → Ticket → Ticket
answered now row = record row {
  first_responded_at = some now;
  sla_response_breached =
      row.sla_response_breached || is_late row.sla_first_response_due (some now);
}

abbrev pub answer_effects : ℕ → Ticket → List Effect
answer_effects now row =
    ticket_activity Event.first_response
    ∷ log_activity Event.first_response
    ∷ (if is_late row.sla_first_response_due (some now) && not row.sla_response_breached
        then emit_sla_first_response_breached ∷ []
        else [])

respond_lem :
    (now : ℕ) (ticket row : Ticket)
    → respond now ticket row ≡ (answered now row, answer_effects now row)
unfolding respond
respond_lem now ticket row = ground arith

record_first_response-respond :
    (actor : Option ℕ) (now : ℕ) (ticket row : Ticket)
    → ticket.first_responded_at ≡ none
    → is_creator actor ticket.created_by ≡ false
    → row.first_responded_at ≡ none
    → record_first_response actor now ticket row ≡ respond now ticket row
unfolding record_first_response
record_first_response-respond actor now ticket row unseen other fresh = ground arith

-- A call whose copy has no response, and whose actor did not create the ticket, on a row without a
-- response, stamps its time, and raises the flag exactly if the deadline has passed by then;
-- whatever calls follow, with copies as old as they may be, the row stays and nothing more is
-- written or sent.
responses_first :
    (c : Call) (cs : List Call) (row : Ticket)
    → c.ticket.first_responded_at ≡ none
    → is_creator c.actor c.ticket.created_by ≡ false
    → row.first_responded_at ≡ none
    → responses (c ∷ cs) row ≡ (answered c.now row, answer_effects c.now row)
unfolding responses
responses_first c cs row unseen other fresh =
    let first =
      record_first_response-respond c.actor c.now c.ticket row unseen other fresh
      ∙ respond_lem c.now c.ticket row in
    let rest = responses_after cs (answered c.now row) c.now refl in
    ap (λ (r : Ticket × List Effect). ((responses cs r.0).0, r.1 ++ (responses cs r.0).1)) first
    ∙ ap (λ (r : Ticket × List Effect). (r.0, answer_effects c.now row ++ r.1)) rest
    ∙ ap (λ e. (answered c.now row, e)) (append-nil (answer_effects c.now row))
