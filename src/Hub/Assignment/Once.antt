-- ===== src/Hub/Assignment/Once.antt =====
-- The assignment engine (apps/inbox_hub/assignment.py): no email is assigned twice.
use kanzan.Prelude.{ℕ, ◌≡◌, refl, Bool, true, false, ◌&&◌, Option, some, arith, ap, ◌∙◌}
use kanzan.Hub.State.{State, same_state}
use kanzan.Hub.Store.{HubEmail, Availability, Reason, Db, Now, find, save, availability_of}
use kanzan.Hub.Store.Rows.{find-save_const, find-pk}
use kanzan.Hub.Services.{is_none}
use kanzan.Hub.Assignment.{given_to, assign_locked, cannot_take, assign_to}

-- The row is new and has no assignee.
abbrev pub is_free : HubEmail → Bool
is_free e = is_none e.assignee && same_state e.state State.new

module _ (he row : HubEmail) (db : Db) (here : find he.pk db.emails ≡ some row) where
  pub assign_to_taken :
      (user : ℕ) (reason : Reason) (actor : Option ℕ) (online : Bool) (n : Now)
      → is_free row ≡ false
      → assign_to he user reason actor online n db ≡ some (false, db)
  unfolding assign_to
  assign_to_taken user reason actor online n taken = rw (here, assign_to) (ground arith)

  pub assign_to_refused :
      (user : ℕ) (reason : Reason) (actor : Option ℕ) (n : Now)
      → cannot_take n (availability_of he.tenant user db.availability) ≡ true
      → assign_to he user reason actor true n db ≡ some (false, db)
  unfolding assign_to
  assign_to_refused user reason actor n refused = rw (here, assign_to) (ground arith)

  pub assign_to_given :
      (user : ℕ) (reason : Reason) (actor : Option ℕ) (online : Bool) (n : Now)
      → is_free row ≡ true
      → (online && cannot_take n (availability_of he.tenant user db.availability)) ≡ false
      → assign_to he user reason actor online n db
        ≡ some (
          true,
          assign_locked he.tenant row
              (availability_of he.tenant user db.availability)
              user
              reason
              actor
              n.now
              db,
        )
  unfolding assign_to
  assign_to_given user reason actor online n free can = rw (here, assign_to) (ground arith)

  assign_locked-find :
      (tenant user now : ℕ) (a : Option Availability) (reason : Reason) (actor : Option ℕ)
      → (row' : HubEmail) × (find he.pk (assign_locked tenant row a user reason actor now db).emails
          ≡ some row')
        × (row'.assignee ≡ some user)
        × (row'.state ≡ State.assigned)
  unfolding assign_locked
  assign_locked-find tenant user now a reason actor =
      let pk = find-pk he.pk row db.emails here in
      (
        given_to user now row,
        ap (λ k. find he.pk (save k (λ r. given_to user now row) db.emails)) pk
            ∙ find-save_const he.pk row (given_to user now row) db.emails here pk,
        refl,
        refl,
      )

-- An email that is new and unassigned goes to the user, if the user may take it. From then on
-- every further assignment of it, to whomever and from any copy, is refused and changes nothing.
assign_to_once :
    (he copy row : HubEmail) (user user' : ℕ) (reason reason' : Reason) (actor actor' : Option ℕ)
    (online online' : Bool) (n n' : Now) (db : Db)
    → find he.pk db.emails ≡ some row
    → copy.pk ≡ he.pk
    → is_free row ≡ true
    → (online && cannot_take n (availability_of he.tenant user db.availability)) ≡ false
    → (db' : Db) × (assign_to he user reason actor online n db ≡ some (true, db'))
      × (row' : HubEmail) × (find he.pk db'.emails ≡ some row')
      × (row'.assignee ≡ some user)
      × (row'.state ≡ State.assigned)
      × (assign_to copy user' reason' actor' online' n' db' ≡ some (false, db'))
assign_to_once he copy row user user' reason reason' actor actor' online online' n n' db h same free
      can =
    let a = availability_of he.tenant user db.availability in
    let db' = assign_locked he.tenant row a user reason actor n.now db in
    let (row', found, who, state) =
      assign_locked-find he row db h he.tenant user n.now a reason actor in
    let found' : find copy.pk db'.emails ≡ some row' = ap (λ k. find k db'.emails) same ∙ found in
    (
      db',
      assign_to_given he row db h user reason actor online n free can,
      row',
      found,
      who,
      state,
      assign_to_taken copy row' db' found' user' reason' actor' online' n' (rw who refl),
    )
