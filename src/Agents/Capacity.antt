-- ===== src/Agents/Capacity.antt =====
-- No agent is given more tickets than it may have (apps/agents/services.py).
use kanzan.Prelude.{
  ℕ, ◌≤◌, ◌≡◌, inl, inr, refl, true, false, ◌&&◌, Option, none, some, List, ◌==◌, if◌then◌else◌,
  arith, Bool-cases, Option-cases,
}
use mathlib.Core.Option
use mathlib.Core.Path.{subst, sym}
use kanzan.Hub.Store.{Availability, is_row_of, update_where, availability_of}
use kanzan.Hub.Store.Rows.{availability_of-update_where, availability_of-is_row_of}
use kanzan.Hub.Assignment.{count_up}
use kanzan.Agents.{
  has_room, Desk, get_available_agent, assign_locked, assign_to_agent, auto_assign_ticket,
}

-- The agent of the row has no more tickets than it may have.
abbrev pub IsWithin : Option Availability → Type 0
IsWithin none = Unit
IsWithin (some a) = a.current_ticket_count ≤ a.max_concurrent_tickets

IsWithin-count :
    (o : Option Availability) (tenant user now : ℕ) (locked : Availability)
    → o ≡ some locked
    → has_room locked ≡ true
    → IsWithin (Option.map (λ a. if is_row_of tenant user a then count_up now a else a) o)
IsWithin-count none tenant user now locked e room = cc
IsWithin-count (some a) tenant user now locked e room =
    let same : a ≡ locked = cc in
    let room_a : has_room a ≡ true = subst (λ x. has_room x ≡ true) (sym same) room in
    ground (arith, room_a)

IsWithin-other :
    (o : Option Availability) (tenant user now : ℕ)
    → IsWithin o
    → ((a : Availability) → o ≡ some a → is_row_of tenant user a ≡ false)
    → IsWithin (Option.map (λ a. if is_row_of tenant user a then count_up now a else a) o)
IsWithin-other none tenant user now h other = tt
IsWithin-other (some a) tenant user now h other = ground (arith, h, other a refl)

count_up-IsWithin :
    (tenant user now : ℕ) (rows : List Availability) (locked : Availability)
    → IsWithin (availability_of tenant user rows)
    → availability_of locked.tenant locked.user rows ≡ some locked
    → has_room locked ≡ true
    → IsWithin (
        availability_of tenant user
          (update_where (is_row_of locked.tenant locked.user) (count_up now) rows))
count_up-IsWithin tenant user now rows locked h found room =
    let o = availability_of tenant user rows in
    let read =
      availability_of-update_where tenant user (is_row_of locked.tenant locked.user) (count_up now)
        rows (λ a. refl) in
    subst IsWithin (sym read) (elim (Bool-cases (locked.tenant == tenant && locked.user == user)) [
      | inl same ↦
          let t : locked.tenant ≡ tenant = ground (arith, same) in
          let u : locked.user ≡ user = ground (arith, same) in
          let own : o ≡ some locked =
            subst (λ x. availability_of x user rows ≡ some locked) t
              (subst (λ y. availability_of locked.tenant y rows ≡ some locked) u found) in
          IsWithin-count o locked.tenant locked.user now locked own room
      | inr differs ↦ IsWithin-other o locked.tenant locked.user now h (λ a e.
          let (t, u) = availability_of-is_row_of tenant user a rows e in
          ground (arith, differs, t, u))
    ])

assign_locked-IsWithin :
    (tenant user now : ℕ) (agent : Availability) (o : Option Availability) (d : Desk)
    → availability_of agent.tenant agent.user d.rows ≡ o
    → IsWithin (availability_of tenant user d.rows)
    → IsWithin (availability_of tenant user (assign_locked now o d).1.rows)
assign_locked-IsWithin tenant user now agent none d e h = h
assign_locked-IsWithin tenant user now agent (some locked) d e h =
    elim (Bool-cases (has_room locked)) [
      | inr full ↦ rw full h
      | inl room ↦
          let (t, u) = availability_of-is_row_of agent.tenant agent.user locked d.rows e in
          let found : availability_of locked.tenant locked.user d.rows ≡ some locked =
            subst (λ x. availability_of x locked.user d.rows ≡ some locked) (sym t)
              (subst (λ y. availability_of agent.tenant y d.rows ≡ some locked) (sym u) e) in
          rw room (count_up-IsWithin tenant user now d.rows locked h found room)
    ]

-- Whatever rows the agent was chosen from, a ticket that is assigned automatically takes no agent, of
-- the tenant or another one, above the number of tickets that the agent may have.
pub auto_assign_ticket-IsWithin :
    (t : ℕ) (default_assignee : Option ℕ) (seen : List Availability) (now : ℕ) (d : Desk)
    (tenant user : ℕ)
    → IsWithin (availability_of tenant user d.rows)
    → IsWithin
        (availability_of tenant user (auto_assign_ticket t default_assignee seen now d).1.rows)
unfolding auto_assign_ticket
auto_assign_ticket-IsWithin t default_assignee seen now d tenant user h =
    elim (Option-cases (get_available_agent t default_assignee seen)) [
      | inl e ↦ rw (e, assign_to_agent) h
      | inr (agent, e) ↦
          rw (e, assign_to_agent)
            (assign_locked-IsWithin tenant user now agent
              (availability_of agent.tenant agent.user d.rows) d refl h)
    ]
