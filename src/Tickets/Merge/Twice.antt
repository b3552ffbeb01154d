-- ===== src/Tickets/Merge/Twice.antt =====
-- The rows of two tickets after a merge, and after a second one the other way
-- (apps/tickets/services.py).
use kanzan.Prelude.{
  ℕ, ◌≡◌, ◌≢◌, Option, none, some, List, [], ◌∷◌, ◌==◌, if◌then◌else◌, keep, first, arith,
}
use mathlib.Core.Option
use mathlib.Core.Path.{subst, sym}
use kanzan.Tickets.Rows.{Status, Ticket}
use kanzan.Tickets.Pipeline.{handle_ticket_status_change}
use kanzan.Tickets.Merge.{
  Filed, Signal, Desk, update, has_pk, save_secondary, closed_by, first_closed, merged,
  merge_tickets, ok,
}

-- The row of a ticket.
abbrev pub row_of : ℕ → List Filed → Option Filed
row_of x rows = first (keep (has_pk x) rows)

row_of-update :
    (signal : Signal) (x s p now : ℕ) (t : Ticket) (rows : List Filed)
    → row_of x (update (has_pk s) (save_secondary signal p now t) rows) ≡ (
        if x == s
        then Option.map (save_secondary signal p now t) (row_of x rows)
        else row_of x rows)
unfolding update save_secondary
row_of-update signal x s p now t [] = ground arith
row_of-update signal x s p now t (r ∷ rows) = ground (arith, row_of-update signal x s p now t rows)

handle_ticket_status_change-status :
    (now : ℕ) (row t : Ticket) → (handle_ticket_status_change now row t).status ≡ t.status
unfolding handle_ticket_status_change
handle_ticket_status_change-status now row t = ground arith

-- The row of a ticket is closed and merged into the given one.
abbrev pub IsMerged : Status → ℕ → Option Filed → Type 0
IsMerged c p none = ⊥
IsMerged c p (some r) = (r.merged_into ≡ some p) × (r.ticket.status ≡ some c)

save_secondary-IsMerged :
    (signal : Signal) (statuses : List Status) (c : Status) (s p now : ℕ) (t : Ticket) (r : Filed)
    → first_closed statuses ≡ some c
    → IsMerged c p (some (save_secondary signal p now (closed_by (first_closed statuses) now t) r))
unfolding save_secondary closed_by
save_secondary-IsMerged signal statuses c s p now t r e = ground (
  arith,
  handle_ticket_status_change-status now r.ticket (closed_by (first_closed statuses) now t),
  e,
)

-- A merge does not test whether a ticket is merged already: of two tickets of a tenant, where a
-- status is closed, the second may be merged into the first and then the first into the second, with
-- whatever copies of their rows; both are then closed, and each is merged into the other.
pub merge_tickets_both_ways :
    (signal signal' : Signal) (statuses : List Status) (c : Status) (a b a' b' ra rb : Filed)
    (actor key key' now now' : ℕ) (d : Desk)
    → first_closed statuses ≡ some c
    → a.ticket.pk ≢ b.ticket.pk
    → a.tenant ≡ b.tenant
    → a'.ticket.pk ≡ a.ticket.pk
    → b'.ticket.pk ≡ b.ticket.pk
    → a'.tenant ≡ b'.tenant
    → row_of a.ticket.pk d.tickets ≡ some ra
    → row_of b.ticket.pk d.tickets ≡ some rb
    → (d' : Desk) × (d'' : Desk) × (merge_tickets signal statuses a b actor key now d ≡ ok a d')
      × (merge_tickets signal' statuses b' a' actor key' now' d' ≡ ok b' d'')
      × IsMerged c a.ticket.pk (row_of b.ticket.pk d''.tickets)
      × IsMerged c b.ticket.pk (row_of a.ticket.pk d''.tickets)
unfolding merge_tickets merged
merge_tickets_both_ways signal signal' statuses c a b a' b' ra rb actor key key' now now' d closed
      other same ea eb same' row_a row_b =
    let p = a.ticket.pk in
    let s = b.ticket.pk in
    let closing = closed_by (first_closed statuses) now b.ticket in
    let closing' = closed_by (first_closed statuses) now' a'.ticket in
    let d' = merged signal statuses a b actor key now d in
    let row_s : row_of s d'.tickets ≡ some (save_secondary signal p now closing rb) =
      ground (arith, row_of-update signal s s p now closing d.tickets) in
    let row_p : row_of p d'.tickets ≡ some ra =
      ground (arith, row_of-update signal p s p now closing d.tickets) in
    let d'' = merged signal' statuses b' a' actor key' now' d' in
    let last_s : row_of s d''.tickets ≡ some (save_secondary signal p now closing rb) = ground (
      arith,
      row_s,
      row_of-update signal' s a'.ticket.pk b'.ticket.pk now' closing' d'.tickets,
      other,
      ea,
    ) in
    let last_p : row_of p d''.tickets
        ≡ some (save_secondary signal' b'.ticket.pk now' closing' ra) =
      ground (
        arith,
        row_p,
        row_of-update signal' p a'.ticket.pk b'.ticket.pk now' closing' d'.tickets,
        ea,
      ) in
    (
      d',
      d'',
      ground arith,
      ground arith,
      subst (IsMerged c p) (sym last_s)
          (save_secondary-IsMerged signal statuses c s p now b.ticket rb closed),
      subst (IsMerged c s) (sym last_p) (
          subst (λ k. IsMerged c k (some (save_secondary signal' b'.ticket.pk now' closing' ra))) eb
            (save_secondary-IsMerged signal' statuses c p b'.ticket.pk now' a'.ticket ra closed)),
    )
