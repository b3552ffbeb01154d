-- ===== src/Hub/Assignment/Drain.antt =====
-- The backlog drain of apps/inbox_hub/assignment.py: no agent is given more than there is room
-- for.
use kanzan.Prelude.{
  ℕ, zero, suc, ◌+◌, ◌≤◌, max, ◌≡◌, refl, Bool, true, false, not, ◌||◌, Option, none, some, List,
  [], ◌∷◌, ◌==◌, if◌then◌else◌, arith, Bool-cases, inl, inr, ap, ◌∙◌, All, keep,
}
use kanzan.Hub.Store.{
  HubEmail, Availability, Reason, Db, Now, find, is_row_of, availability_of, remaining_capacity,
  is_assignable,
}
use kanzan.Hub.Store.Rows.{
  find-save, availability_of-update_where, availability_of-is_row_of, All-FindIn,
}
use kanzan.Hub.Assignment.{
  count_up, given_to, assign_locked, cannot_take, assign_to, drain_loop, drain_department_backlog,
  take, is_held_for,
}
use kanzan.Hub.Assignment.Once.{is_free, assign_to_taken, assign_to_refused, assign_to_given}

abbrev IsRow : Db → HubEmail → Type 0
IsRow db e = (row : HubEmail) × (find e.pk db.emails ≡ some row)

-- An agent that may take an email has room for it.
room_of_can :
    (n : Now) (a : Availability)
    → cannot_take n (some a) ≡ false
    → a.current_ticket_count + 1 ≤ a.max_concurrent_tickets
room_of_can n a can = ground arith

module _ (tenant user : ℕ) where
  assign_locked-IsRow :
      (row : HubEmail) (a : Option Availability) (now : ℕ) (db : Db) (e : HubEmail)
      → IsRow db e
      → IsRow (assign_locked tenant row a user Reason.auto none now db) e
  unfolding assign_locked
  assign_locked-IsRow row a now db e (x, h) = (
    (if e.pk == row.pk then given_to user now row else x),
    find-save e.pk row.pk (λ r. given_to user now row) db.emails (λ r p. refl)
        ∙ rw h (ground arith),
  )

  assign_locked-All :
      (row : HubEmail) (a : Option Availability) (now : ℕ) (db : Db) (es : List HubEmail)
      → All (IsRow db) es
      → All (IsRow (assign_locked tenant row a user Reason.auto none now db)) es
  assign_locked-All row a now db [] h = tt
  assign_locked-All row a now db (e ∷ es) h =
      (assign_locked-IsRow row a now db e h.0, assign_locked-All row a now db es h.1)

  assign_locked-availability :
      (row : HubEmail) (a : Availability) (now : ℕ) (db : Db)
      → availability_of tenant user db.availability ≡ some a
      → availability_of tenant user
          (assign_locked tenant row (some a) user Reason.auto none now db).availability
        ≡ some (count_up now a)
  unfolding assign_locked
  assign_locked-availability row a now db h =
      let (t, u) = availability_of-is_row_of tenant user a db.availability h in
      availability_of-update_where tenant user (is_row_of tenant user) (count_up now)
        db.availability (λ b. refl)
      ∙ rw h (ground arith)

  -- What the loop of a drain has done, from the agent's row `a` and the count `k` on.
  abbrev Drained : List HubEmail → Now → ℕ → Db → Availability → Type 0
  Drained held n k db a =
      (r : ℕ × Db) × (a' : Availability) × (drain_loop held user n k db ≡ some r)
      × (availability_of tenant user r.1.availability ≡ some a')
      × (a'.current_ticket_count + k ≡ a.current_ticket_count + r.0)
      × (a'.max_concurrent_tickets ≡ a.max_concurrent_tickets)
      × (a'.current_ticket_count ≤ max a.current_ticket_count a.max_concurrent_tickets)

  drain_loop-Drained :
      (held : List HubEmail) (n : Now) (k : ℕ) (db : Db) (a : Availability)
      → All (λ e. e.tenant ≡ tenant) held
      → All (IsRow db) held
      → availability_of tenant user db.availability ≡ some a
      → Drained held n k db a
  unfolding drain_loop
  drain_loop-Drained [] n k db a own rows h = ((k, db), a, refl, h, refl, refl, omega arith)
  drain_loop-Drained (e ∷ es) n k db a own rows h =
      let (row, found) = rows.0 in
      let skip = drain_loop-Drained es n k db a own.1 rows.1 h in
      let mine : availability_of e.tenant user db.availability ≡ some a = rw own.0 h in
      elim (Bool-cases (is_free row)) [
        | inr taken ↦
            rw (drain_loop, assign_to_taken e row db found user Reason.auto none true n taken) skip
        | inl free ↦ elim (Bool-cases (cannot_take n (some a))) [
          | inl refused ↦
              rw
                (
                  drain_loop,
                  assign_to_refused e row db found user Reason.auto none n (rw mine refused),
                )
                skip
          | inr can ↦
              let db1 = assign_locked tenant row (some a) user Reason.auto none n.now db in
              let gave : assign_to e user Reason.auto none true n db ≡ some (true, db1) =
                assign_to_given e row db found user Reason.auto none true n free (rw mine can)
                ∙ ap (λ o. some (true, assign_locked e.tenant row o user Reason.auto none n.now db))
                    mine
                ∙ ap (λ t. some (true, assign_locked t row (some a) user Reason.auto none n.now db))
                    own.0 in
              let (r, a', loop, there, counted, cap, kept) =
                drain_loop-Drained es n (k + 1) db1 (count_up n.now a) own.1
                  (assign_locked-All row (some a) n.now db es rows.1)
                  (assign_locked-availability row a n.now db h) in
              let room : a.current_ticket_count + 1 ≤ a.max_concurrent_tickets =
                room_of_can n a can in
              (r, a', rw (gave, drain_loop) loop, there, omega arith, cap, omega arith)
        ]
      ]

All-keep {ℓ} :
    (P Q : HubEmail → Type ℓ) (p : HubEmail → Bool) (es : List HubEmail)
    → ((e : HubEmail) → p e ≡ true → P e → Q e)
    → All P es
    → All Q (keep p es)
All-keep P Q p [] f h = tt
All-keep P Q p (e ∷ es) f h = elim (Bool-cases (p e)) [
  | inl in_ ↦ rw in_ (f e in_ h.0, All-keep P Q p es f h.1)
  | inr out ↦ rw out (All-keep P Q p es f h.1)
]

All-take {ℓ} : (P : HubEmail → Type ℓ) (k : ℕ) (es : List HubEmail) → All P es → All P (take k es)
All-take P zero es h = tt
All-take P (suc k) [] h = tt
All-take P (suc k) (e ∷ es) h = (h.0, All-take P k es h.1)

is_held_for-tenant :
    (tenant : ℕ) (ids : List ℕ) (e : HubEmail) → is_held_for tenant ids e ≡ true → e.tenant ≡ tenant
is_held_for-tenant tenant ids e h = ground arith

All-any : (es : List HubEmail) → All (λ e. Unit {0}) es
All-any [] = tt
All-any (e ∷ es) = (tt, All-any es)

-- For a user with a row of availability, a drain ends, reports exactly the load that it has added
-- to the user's counter, and leaves the counter at most the larger of its value before and the
-- maximum.
pub drain_department_backlog-Drained :
    (auto : Bool) (ids : List ℕ) (user tenant : ℕ) (n : Now) (db : Db) (a : Availability)
    → availability_of tenant user db.availability ≡ some a
    → (r : ℕ × Db) × (a' : Availability) × (drain_department_backlog auto ids user tenant n db
        ≡ some r)
      × (availability_of tenant user r.1.availability ≡ some a')
      × (a'.current_ticket_count ≡ a.current_ticket_count + r.0)
      × (a'.max_concurrent_tickets ≡ a.max_concurrent_tickets)
      × (a'.current_ticket_count ≤ max a.current_ticket_count a.max_concurrent_tickets)
unfolding drain_department_backlog
drain_department_backlog-Drained auto ids user tenant n db a h = elim (Bool-cases auto) [
  | inr off ↦ ((0, db), a, rw off, h, omega arith, refl, omega arith)
  | inl on ↦ elim (Bool-cases (not (is_assignable n a) || (remaining_capacity a == 0))) [
    | inl away ↦
        ((0, db), a, rw (on, h, drain_department_backlog, away), h, omega arith, refl, omega arith)
    | inr here ↦
        let held = take (remaining_capacity a) (keep (is_held_for tenant ids) db.emails) in
        let (r, a', loop, there, counted, cap, kept) =
          drain_loop-Drained tenant user held n 0 db a
            (All-take _ (remaining_capacity a) _ (
              All-keep _ _ (is_held_for tenant ids) db.emails
                (λ e p _. is_held_for-tenant tenant ids e p) (All-any db.emails)))
            (All-take _ (remaining_capacity a) _
              (All-keep _ _ (is_held_for tenant ids) db.emails (λ e _ q. q) (All-FindIn db.emails)))
            h in
        (r, a', rw (on, h, drain_department_backlog, here) loop, there, omega arith, cap, kept)
  ]
]
