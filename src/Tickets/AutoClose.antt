-- ===== src/Tickets/AutoClose.antt =====
-- apps/tickets/tasks.py: the task that closes a ticket some days after its solution. The statuses of
-- the tenant stand in their order.
use kanzan.Prelude.{
  ℕ, ◌≡◌, Bool, true, false, not, Option, none, some, List, [], ◌∷◌, ◌++◌, ◌==◌, if◌then◌else◌,
  keep, first, arith, Bool-cases, inl, inr,
}
use kanzan.Tickets.Rows.{Status, Ticket, Event, Effect, ticket_activity}
use kanzan.Tickets.Status.{is_resolved, is_same, change_ticket_status}
use kanzan.Tickets.Status.Consistent.{changed_without_task, changed_drops_task}

-- `ticket.auto_close_task_id != self.request.id`
abbrev pub is_task : Option ℕ → ℕ → Bool
is_task none id = false
is_task (some task) id = task == id

-- What the task does once its guards are passed.
abbrev pub close_as : Status → Ticket → ℕ → Ticket × List Effect
close_as closed_status ticket now =
    let r = change_ticket_status ticket closed_status none now in
    (record r.0 { auto_close_task_id = none }, r.1 ++ (ticket_activity Event.auto_closed ∷ []))

-- `auto_close_ticket`, run as the task `id` on the ticket's row
unfoldable pub auto_close_ticket : List Status → ℕ → ℕ → Ticket → Ticket × List Effect
auto_close_ticket statuses id now ticket =
    if not (is_resolved ticket.status)
    then (ticket, [])
    else if not (is_task ticket.auto_close_task_id id)
    then (ticket, [])
    else elim (first (keep (λ s. s.is_closed) statuses)) [
      | none ↦ (ticket, [])
      | some closed_status ↦ close_as closed_status ticket now
    ]

auto_close_ticket_skips :
    (statuses : List Status) (id now : ℕ) (t : Ticket)
    → t.auto_close_task_id ≡ none
    → auto_close_ticket statuses id now t ≡ (t, [])
unfolding auto_close_ticket
auto_close_ticket_skips statuses id now t e = ground arith

-- A change of status: the new status, the actor and the time.
abbrev pub Change : Type 0
Change = Status × (Option ℕ × ℕ)

-- The ticket after changes of its status, one after another.
abbrev pub changes : List Change → Ticket → Ticket
changes [] t = t
changes ((s, (actor, now)) ∷ cs) t = changes cs (change_ticket_status t s actor now).0

change_ticket_status_without_task :
    (s : Status) (actor : Option ℕ) (now : ℕ) (t : Ticket)
    → t.auto_close_task_id ≡ none
    → (change_ticket_status t s actor now).0.auto_close_task_id ≡ none
unfolding change_ticket_status
change_ticket_status_without_task s actor now t e = elim (Bool-cases (is_same t.status s)) [
  | inl same ↦ rw same e
  | inr other ↦ rw other (changed_without_task t.status s actor now t e)
]

changes_without_task :
    (cs : List Change) (t : Ticket)
    → t.auto_close_task_id ≡ none
    → (changes cs t).auto_close_task_id ≡ none
changes_without_task [] t e = e
changes_without_task ((s, (actor, now)) ∷ cs) t e =
    changes_without_task cs (change_ticket_status t s actor now).0
      (change_ticket_status_without_task s actor now t e)

change_ticket_status_drops_task :
    (s : Status) (actor : Option ℕ) (now : ℕ) (t : Ticket)
    → is_resolved t.status ≡ true
    → is_resolved (some s) ≡ false
    → is_same t.status s ≡ false
    → (change_ticket_status t s actor now).0.auto_close_task_id ≡ none
unfolding change_ticket_status
change_ticket_status_drops_task s actor now t was is other =
    rw other (changed_drops_task t.status s actor now t was is)

-- A ticket that has left the status `resolved` is not closed by a task that was scheduled before:
-- whatever changes of status follow, back to `resolved` included, the task finds another id than
-- its own, until a new task is stored, and leaves the row as it is.
auto_close_ticket_stale :
    (statuses : List Status) (id now at : ℕ) (s : Status) (actor : Option ℕ) (cs : List Change)
    (t : Ticket)
    → is_resolved t.status ≡ true
    → is_resolved (some s) ≡ false
    → is_same t.status s ≡ false
    → let t' = changes ((s, (actor, at)) ∷ cs) t in auto_close_ticket statuses id now t' ≡ (t', [])
auto_close_ticket_stale statuses id now at s actor cs t was is other =
    auto_close_ticket_skips statuses id now (changes ((s, (actor, at)) ∷ cs) t) (
      changes_without_task cs (change_ticket_status t s actor at).0
        (change_ticket_status_drops_task s actor at t was is other))
