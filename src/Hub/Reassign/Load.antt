-- ===== src/Hub/Reassign/Load.antt =====
-- Reassignment (apps/inbox_hub/services.py) and the agents' load counters.
use kanzan.Prelude.{
  ℕ, ◌+◌, ◌-◌, ◌≡◌, refl, Bool, true, false, Option, none, some, List, ◌==◌, if◌then◌else◌, arith,
  Bool-cases, Option-cases, inl, inr, ap, ◌∙◌,
}
use mathlib.Core.Option
use kanzan.Hub.State.{State, same_state, is_terminal}
use kanzan.Hub.Store.{
  HubEmail, Availability, Db, ok, find, save, is_row_of, update_where, availability_of, is_member,
}
use kanzan.Hub.Store.Rows.{
  find-save_const, find-pk, availability_of-update_where, availability_of-is_row_of,
}
use kanzan.Hub.Services.{stamp}
use kanzan.Hub.Reassign.{
  is_key, reload, add_load, drop_load, touch, is_loaded_row, taken_over, reassign_locked,
  reassign_hub_email,
}

-- The load counter of a user.
abbrev pub load : ℕ → ℕ → Db → Option ℕ
load tenant user db =
    Option.map (λ (a : Availability). a.current_ticket_count)
      (availability_of tenant user db.availability)

-- What a reassignment makes of a user's counter.
abbrev pub shifted : Option ℕ → ℕ → ℕ → ℕ → ℕ
shifted old_user new_user user n =
    if is_key old_user new_user
    then n
    else if new_user == user
    then n + 1
    else if is_key old_user user
    then n - 1
    else n

map-map :
    (g f h : ℕ → ℕ) (o : Option ℕ)
    → ((n : ℕ) → g (f n) ≡ h n)
    → Option.map g (Option.map f o) ≡ Option.map h o
map-map g f h none e = refl
map-map g f h (some n) e = ap some (e n)

module _ (tenant user : ℕ) where
  load-update_where :
      (p : Availability → Bool) (write : Availability → Availability) (rows : List Availability)
      → ((a : Availability) → is_row_of tenant user (write a) ≡ is_row_of tenant user a)
      → (f : ℕ → ℕ)
      → ((a : Availability)
          → a.tenant ≡ tenant
          → a.user ≡ user
          → (if p a then write a else a).current_ticket_count ≡ f a.current_ticket_count)
      → Option.map
          (λ (a : Availability). a.current_ticket_count)
          (availability_of tenant user (update_where p write rows))
        ≡ Option.map f (
            Option.map
              (λ (a : Availability). a.current_ticket_count)
              (availability_of tenant user rows))
  load-update_where p write rows keeps f counts =
      rw (availability_of-update_where tenant user p write rows keeps)
        (elim (Option-cases (availability_of tenant user rows)) [
          | inl absent ↦ rw absent
          | inr (a, present) ↦
              let (t, u) = availability_of-is_row_of tenant user a rows present in
              rw present (ap some (counts a t u))
        ])

  abbrev dropped : ℕ → ℕ → ℕ
  dropped old n = if old == user then n - 1 else n

  abbrev added : ℕ → ℕ → ℕ
  added new_user n = if new_user == user then n + 1 else n

  pub load-reload :
      (old_user : Option ℕ) (new_user now : ℕ) (db : Db)
      → load tenant user (reload tenant old_user new_user now db)
        ≡ Option.map (shifted old_user new_user user) (load tenant user db)
  unfolding reload
  load-reload none new_user now db =
      load-update_where (is_row_of tenant new_user) (add_load now) db.availability (λ a. refl)
        (shifted none new_user user) (λ a t u. ground arith)
  load-reload (some old) new_user now db = elim (Bool-cases (old == new_user)) [
    | inl same ↦ rw same (
        load-update_where (is_row_of tenant new_user) (touch now) db.availability (λ a. refl)
          (shifted (some old) new_user user) (λ a t u. ground arith))
    | inr other ↦ rw other (
        load-update_where (is_loaded_row tenant old) drop_load
          (update_where (is_row_of tenant new_user) (add_load now) db.availability) (λ a. refl)
          (dropped old) (λ a t u. ground arith)
        ∙ ap (Option.map (dropped old)) (
            load-update_where (is_row_of tenant new_user) (add_load now) db.availability (λ a. refl)
              (added new_user) (λ a t u. ground arith))
        ∙ map-map (dropped old) (added new_user) (shifted (some old) new_user user)
            (load tenant user db) (λ n. ground arith))
  ]

reload-emails :
    (tenant : ℕ) (old_user : Option ℕ) (new_user now : ℕ) (db : Db)
    → (reload tenant old_user new_user now db).emails ≡ db.emails
unfolding reload
reload-emails tenant old_user new_user now db = ground arith

reassign_hub_email-find :
    (he row : HubEmail) (new_user : ℕ) (actor : Option ℕ) (now : ℕ) (db : Db)
    → find he.pk db.emails ≡ some row
    → is_member he.tenant new_user db.members ≡ true
    → is_terminal row.state ≡ false
    → reassign_hub_email he new_user actor now db ≡ ok (reassign_locked row new_user actor now db)
unfolding reassign_hub_email
reassign_hub_email-find he row new_user actor now db h member open_row =
    rw (member, h, reassign_hub_email, open_row)

never_new :
    (s : State)
    → same_state (if same_state s State.new then State.assigned else s) State.new ≡ false
unfolding same_state
never_new s = ground arith

stays_open :
    (s : State)
    → is_terminal s ≡ false
    → is_terminal (if same_state s State.new then State.assigned else s) ≡ false
unfolding same_state
stays_open s h = ground arith

-- A reassignment of an email that is not terminal to an active member stores the new assignee,
-- never leaves the email new, counts a first response only when the new assignee acts, moves one
-- unit of load from the assignee before to the new one, and leaves the tenant's other counters alone.
-- Reassigning to the same user moves no load.
pub reassign_hub_email_done :
    (he row : HubEmail) (new_user user now : ℕ) (actor : Option ℕ) (db : Db)
    → find he.pk db.emails ≡ some row
    → is_member he.tenant new_user db.members ≡ true
    → is_terminal row.state ≡ false
    → let (he', db') = reassign_locked row new_user actor now db in
      (reassign_hub_email he new_user actor now db ≡ ok (he', db'))
      × (find he.pk db'.emails ≡ some he')
      × (he'.assignee ≡ some new_user)
      × (same_state he'.state State.new ≡ false)
      × (is_terminal he'.state ≡ false)
      × (he'.first_responded_at ≡ (
          if is_key actor new_user
          then stamp row.first_responded_at now
          else row.first_responded_at))
      × (load row.tenant user db'
          ≡ Option.map (shifted row.assignee new_user user) (load row.tenant user db))
unfolding reassign_locked
reassign_hub_email_done he row new_user user now actor db h member open_row =
    let he' = taken_over new_user actor now row in
    let pk : row.pk ≡ he.pk = find-pk he.pk row db.emails h in
    let saved : find he.pk (save row.pk (λ r. he') db.emails) ≡ some he' =
      ap (λ k. find he.pk (save k (λ r. he') db.emails)) pk
      ∙ find-save_const he.pk row he' db.emails h pk in
    (
      reassign_hub_email-find he row new_user actor now db h member open_row,
      ap (find he.pk) (reload-emails row.tenant row.assignee new_user now _) ∙ saved,
      refl,
      never_new row.state,
      stays_open row.state open_row,
      refl,
      load-reload row.tenant user row.assignee new_user now _,
    )
