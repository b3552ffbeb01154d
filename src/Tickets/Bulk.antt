-- ===== src/Tickets/Bulk.antt =====
-- apps/tickets/services.py: an action on many tickets, each in a transaction of its own. The order
-- in which Python lists a set of tags is given.
pub mod Each
mod Tests
use kanzan.Prelude.{
  ℕ, ◌+◌, Bool, true, false, Option, none, some, List, [], ◌∷◌, ◌++◌, ◌==◌, if◌then◌else◌, String,
  keep, first, is_in, ◌>>=◌,
}
use kanzan.Tickets.Rows.{Status, Ticket, Priority, Effect, Event, log_activity, Result, ok, raised}
use kanzan.Tickets.Status.{change_ticket_status}
use kanzan.Tickets.Assign.{assign_ticket}
use kanzan.Tickets.Escalate.{change_ticket_priority}

-- A ticket with its number, its tags and what a deletion writes.
pub record Tagged : Type 0 where
  pub ticket : Ticket
  pub number : ℕ
  pub tags : List String
  pub is_deleted : Bool
  pub deleted_at : Option ℕ
  pub deleted_by : Option ℕ

-- The action with its parameters, of which a key may be missing.
pub data Action : Type 0 where
  assign : Option ℕ → Action
  change_status : Option ℕ → Action
  change_priority : Option Priority → Action
  add_tag : List String → Action
  delete unknown : Action

pub data Detail : Type 0 where
  updated failed deleted : ℕ → Detail

-- What the actions read of a tenant: its users and active members, its statuses in their order, and
-- whether an assignment changes the status.
pub record Office : Type 0 where
  pub users : List ℕ
  pub members : List ℕ
  pub statuses : List Status
  pub auto_transition : Option Bool

-- A raise is caught, and nothing is saved.
abbrev pub from_result : Result → Option (Ticket × List Effect)
from_result (ok t effects) = some (t, effects)
from_result (raised e) = none

abbrev pub with_ticket : Tagged → Option (Ticket × List Effect) → Option (Tagged × List Effect)
with_ticket r none = none
with_ticket r (some (t, effects)) = some (record r { ticket = t }, effects)

-- `qs.get(pk=params[key])`
abbrev pub status_by : List Status → Option ℕ → Option Status
status_by statuses none = none
status_by statuses (some pk) = first (keep (λ s. s.pk == pk) statuses)

abbrev pub user_by : List ℕ → Option ℕ → Option ℕ
user_by users none = none
user_by users (some u) = if is_in u users then some u else none

abbrev pub detail : Action → ℕ → Detail
detail Action.delete number = Detail.deleted number
detail _ number = Detail.updated number

pub record Outcome : Type 0 where
  pub rows : List Tagged
  pub count : ℕ
  pub details : List Detail
  pub effects : List Effect

module _ (set_list : List String → List String) (office : Office) (user now : ℕ) where
  -- The body of the `try`, for one ticket; none is an exception.
  unfoldable pub act : Action → Tagged → Option (Tagged × List Effect)
  act (Action.assign user_id) r = do
    assignee ← user_by office.users user_id
    with_ticket r (
        from_result (
          assign_ticket office.members office.statuses office.auto_transition r.ticket assignee
            (some user) now))
  act (Action.change_status status_id) r = do
    new_status ← status_by office.statuses status_id
    with_ticket r (some (change_ticket_status r.ticket new_status (some user) now))
  act (Action.change_priority none) r = none
  act (Action.change_priority (some p)) r = with_ticket r (some (change_ticket_priority r.ticket p))
  act (Action.add_tag tags) r =
      some (record r { tags = set_list (r.tags ++ tags) }, log_activity Event.tags_added ∷ [])
  act Action.delete r = some (
    record r { is_deleted = true; deleted_at = some now; deleted_by = some user },
    log_activity Event.deleted ∷ [],
  )
  act Action.unknown r = none

  abbrev pub added : Action → Tagged → Option (Tagged × List Effect) → Outcome → Outcome
  added action r none o = record o {
    rows = r ∷ o.rows;
    details = Detail.failed r.number ∷ o.details;
  }
  added action r (some (after, effects)) o = record {
    rows = after ∷ o.rows;
    count = 1 + o.count;
    details = detail action r.number ∷ o.details;
    effects = effects ++ o.effects;
  }

  -- `bulk_update_tickets`
  pub bulk_update_tickets : Action → List Tagged → Outcome
  bulk_update_tickets action [] = record { rows = []; count = 0; details = []; effects = [] }
  bulk_update_tickets action (r ∷ rs) =
      added action r (act action r) (bulk_update_tickets action rs)
