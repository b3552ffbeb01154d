-- ===== src/Hub/Assignment.antt =====
-- apps/inbox_hub/assignment.py: the assignment engine.
pub mod Once
pub mod Drain
use kanzan.Prelude.{
  ℕ, zero, suc, ◌+◌, ◌-◌, Bool, true, false, ◌&&◌, ◌||◌, not, Option, none, some, List, [], ◌∷◌,
  ◌==◌, ltb, if◌then◌else◌, is_in, keep, first,
}
use kanzan.Hub.State
use kanzan.Hub.State.{same_state}
use kanzan.Hub.Store.{
  HubEmail, Inbound, Availability, Reason, Action, LiveEvent, OnCommit, Db, Now, find, save,
  save_inbound, is_row_of, update_where, availability_of, remaining_capacity, is_assignable,
  write_log, broadcast, call_on_commit,
}
use kanzan.Hub.Services.{is_none, stamp}
use kanzan.Hub.Reassign.{hand_over}

abbrev pub count_up : ℕ → Availability → Availability
count_up now a = record a {
  current_ticket_count = a.current_ticket_count + 1;
  last_activity = some now;
}

-- The row that is saved.
abbrev pub given_to : ℕ → ℕ → HubEmail → HubEmail
given_to user now he = record he {
  assignee = some user;
  first_assigned_at = stamp he.first_assigned_at now;
  state = State.assigned;
}

-- The part of `assign_to` after its guards, on the locked rows.
pub assign_locked : ℕ → HubEmail → Option Availability → ℕ → Reason → Option ℕ → ℕ → Db → Db
assign_locked tenant he locked_avail user reason actor now db =
    let he' = given_to user now he in
    let db1 = record db {
      emails = save he.pk (λ row. he') db.emails;
      inbounds = save_inbound he.inbound (hand_over user) db.inbounds;
      assignments =
          record {
            tenant = tenant;
            hub_email = he.pk;
            assigned_to = user;
            assigned_by = actor;
            reason = reason;
            created_at = now;
          }
          ∷ db.assignments;
      availability = elim locked_avail [
        | none ↦ db.availability
        | some a ↦ update_where (is_row_of tenant user) (count_up now) db.availability
      ];
    } in
    let db2 = write_log he.pk actor Action.email_agent_assigned db1 in
    let db3 = broadcast LiveEvent.assigned he' db2 in
    call_on_commit (OnCommit.notify_assignment he.pk user) db3

-- `locked_avail is None or not locked_avail.is_assignable`
abbrev pub cannot_take : Now → Option Availability → Bool
cannot_take n none = true
cannot_take n (some a) = not (is_assignable n a)

-- `assign_to`; the result says whether the user was assigned. `none` is a row that is not there.
pub assign_to : HubEmail → ℕ → Reason → Option ℕ → Bool → Now → Db → Option (Bool × Db)
assign_to hub_email user reason actor require_online n db = elim (find hub_email.pk db.emails) [
  | none ↦ none
  | some he ↦
      if not (is_none he.assignee) || not (same_state he.state State.new)
      then some (false, db)
      else (let locked_avail = availability_of hub_email.tenant user db.availability in
          if require_online && cannot_take n locked_avail
          then some (false, db)
          else some
              (true, assign_locked hub_email.tenant he locked_avail user reason actor n.now db))
]

-- The `for` loop of `drain_department_backlog`.
pub drain_loop : List HubEmail → ℕ → Now → ℕ → Db → Option (ℕ × Db)
drain_loop [] user n assigned db = some (assigned, db)
drain_loop (he ∷ held) user n assigned db = elim (assign_to he user Reason.auto none true n db) [
  | none ↦ none
  | some r ↦ drain_loop held user n (if r.0 then assigned + 1 else assigned) r.1
]

-- `queryset[:n]`
abbrev pub take {ℓ} : {A : Type ℓ} → ℕ → List A → List A
take zero xs = []
take (suc n) [] = []
take (suc n) (x ∷ xs) = x ∷ take n xs

-- The query for the held emails; the rows stand in the order of their creation.
abbrev pub is_held_for : ℕ → List ℕ → HubEmail → Bool
is_held_for tenant dept_ids e =
    e.tenant == tenant
    && same_state e.state State.new
    && is_none e.assignee
    && elim e.department [ none ↦ true | some d ↦ is_in d dept_ids ]

-- `drain_department_backlog`, given the tenant's switch and the user's departments
pub drain_department_backlog : Bool → List ℕ → ℕ → ℕ → Now → Db → Option (ℕ × Db)
drain_department_backlog auto_assign dept_ids user tenant n db =
    if not auto_assign then some (0, db) else elim (availability_of tenant user db.availability) [
      | none ↦ some (0, db)
      | some a ↦
          if not (is_assignable n a) || (remaining_capacity a == 0)
          then some (0, db)
          else drain_loop
              (take (remaining_capacity a) (keep (is_held_for tenant dept_ids) db.emails)) user n 0
              db
    ]
