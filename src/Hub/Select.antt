-- ===== src/Hub/Select.antt =====
-- apps/inbox_hub/assignment.py: the choice of an agent. The chain of strategies is given as a
-- list, and the sort with its first item is one pass that keeps the least row.
pub mod Least
mod Tests
use kanzan.Prelude.{
  ℕ, ◌+◌, Bool, true, false, ◌&&◌, Option, none, some, List, [], ◌∷◌, ◌==◌, ltb, if◌then◌else◌,
  is_in, keep, length, map, any, max, get,
}
use kanzan.Hub.State.{State, same_state}
use kanzan.Hub.Store.{
  HubEmail, Availability, Assignment, Reason, Db, Now, remaining_capacity, is_assignable,
}
use kanzan.Hub.Reassign.{is_key}
use kanzan.Hub.Assignment.{assign_to}

pub data Strategy : Type 0 where
  availability_aware least_loaded round_robin : Strategy

-- `ACTIVE_STATES`
abbrev pub active_states : List State
active_states =
    State.new ∷ State.assigned ∷ State.in_progress ∷ State.pending_agent ∷ State.awaiting_customer
    ∷ State.escalated ∷ []

-- `hub_loads.get(user_id, 0)`
pub hub_load : ℕ → ℕ → Db → ℕ
hub_load tenant user db = length (
    keep
      (λ e.
        (e.tenant == tenant) && (is_key e.assignee user && any (same_state e.state) active_states))
      db.emails)

abbrev pub latest : ℕ → ℕ → List Assignment → ℕ
latest tenant user [] = 0
latest tenant user (a ∷ rows) =
    let rest = latest tenant user rows in
    if a.tenant == tenant && a.assigned_to == user then max a.created_at rest else rest

-- `last_ts`
pub last_assigned : ℕ → ℕ → Db → ℕ
last_assigned tenant user db = latest tenant user db.assignments

-- The load that `sort_key` compares.
abbrev pub total_load : Db → Availability → ℕ
total_load db a = hub_load a.tenant a.user db + a.current_ticket_count

-- One part of `sort_key` of two rows: is the first less?
abbrev pub less : Db → Strategy → Availability → Availability → Bool
less db availability_aware a b = ltb (remaining_capacity b) (remaining_capacity a)
less db least_loaded a b = ltb (total_load db a) (total_load db b)
less db round_robin a b = ltb (last_assigned a.tenant a.user db) (last_assigned b.tenant b.user db)

-- The order of the sort keys: part by part, then by the user's key.
pub before : Db → List Strategy → Availability → Availability → Bool
before db [] a b = ltb a.user b.user
before db (s ∷ ss) a b =
    let rest = before db ss a b in
    if less db s a b then true else if less db s b a then false else rest

-- The first of the least rows.
pub least : Db → List Strategy → Availability → List Availability → Availability
least db ss a [] = a
least db ss a (b ∷ bs) =
    let other = least db ss b bs in
    let same = least db ss a bs in if before db ss b a then other else same

-- The rows that pass the hard gate.
pub candidates : ℕ → List ℕ → Now → Db → List Availability
candidates tenant user_ids n db =
    keep (is_assignable n) (keep (λ a. a.tenant == tenant && is_in a.user user_ids) db.availability)

abbrev pub choose : Db → List Strategy → List Availability → Option Availability
choose db ss [] = none
choose db ss (a ∷ rows) = some (least db ss a rows)

-- `_select_agent`, as the row of the chosen user
pub select_agent : ℕ → List ℕ → List Strategy → Now → Db → Option Availability
unfolding candidates least
select_agent tenant user_ids ss n db = choose db ss (candidates tenant user_ids n db)

-- The tables behind `_candidate_user_ids`: tenant, department and user of a membership, the
-- departments of the queues, and tenant and user of an active agent.
pub record Pools : Type 0 where
  pub memberships : List (ℕ × (ℕ × ℕ))
  pub queue_departments : List (ℕ × ℕ)
  pub agents : List (ℕ × ℕ)

-- The department of the email, or of its queue.
abbrev pub department_of : Pools → HubEmail → Option ℕ
department_of pools e = elim e.department [
  | some d ↦ some d
  | none ↦ elim e.queue [ none ↦ none | some q ↦ get q pools.queue_departments ]
]

-- `_candidate_user_ids`
pub candidate_user_ids : Pools → HubEmail → List ℕ
candidate_user_ids pools e = elim (department_of pools e) [
  | some d ↦ map (λ m. m.1.1) (keep (λ m. m.0 == e.tenant && m.1.0 == d) pools.memberships)
  | none ↦ map (λ m. m.1) (keep (λ m. m.0 == e.tenant) pools.agents)
]

-- `try_assign`; the result is the user, where one was assigned. The notice of a hold is left out.
pub try_assign : Pools → List Strategy → HubEmail → Option ℕ → Now → Db → Option (Option ℕ × Db)
try_assign pools ss e actor n db =
    elim (select_agent e.tenant (candidate_user_ids pools e) ss n db) [
      | none ↦ some (none, db)
      | some a ↦ elim (assign_to e a.user Reason.auto actor true n db) [
        | none ↦ none
        | some r ↦ some (if r.0 then some a.user else none, r.1)
      ]
    ]
