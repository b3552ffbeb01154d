-- ===== src/Hub/Services/Lifecycle.antt =====
-- What the services of apps/inbox_hub/services.py do to the state of an email.
use kanzan.Prelude.{
  ℕ, ◌+◌, ◌≡◌, refl, Bool, true, false, Option, some, ◌∷◌, if◌then◌else◌, arith, Bool-cases, inl,
  inr, String, ap, ◌∙◌, length,
}
use kanzan.Hub.State.{State, same_state, can_transition, is_terminal}
use kanzan.Hub.State.Graph.{can_transition-converted_to_ticket}
use kanzan.Hub.Store.{HubEmail, InboundStatus, Db, Error, ok, raised, find, save, save_inbound}
use kanzan.Hub.Store.Rows.{find-save_self}
use kanzan.Hub.Services.{
  transition_hub_email, transition_save, transition_row, transition_copy, convert_row,
  escalate_save, escalate_row, convert_locked, convert_created, convert_guarded, convert_to_ticket,
  dismiss_guarded, dismiss_hub_email, escalate_hub_email,
}

transition_row-copy :
    (he : HubEmail) (t : State) (now : ℕ) → transition_row he t now he ≡ transition_copy t now he
unfolding transition_row transition_copy
transition_row-copy he t now = ground arith

-- A change of state is made if it is legal for the copy, and raises if not. Where the copy is up
-- to date, the row then holds what the caller sees, with the new state and one more log entry.
transition_hub_email-find :
    (he : HubEmail) (t : State) (actor : Option ℕ) (now : ℕ) (db : Db)
    → find he.pk db.emails ≡ some he
    → let (he', db') = transition_save he t actor now db in
      (transition_hub_email he t actor now db
        ≡ (if can_transition he.state t then ok (he', db') else raised Error.illegal_transition))
      × (find he.pk db'.emails ≡ some he')
      × (he'.state ≡ t)
      × (length db'.log ≡ length db.log + 1)
unfolding transition_hub_email transition_save
transition_hub_email-find he t actor now db h = (
  refl,
  find-save_self he.pk (transition_row he t now) he db.emails (λ e. refl) h
      ∙ ap some (transition_row-copy he t now),
  refl,
  omega arith,
)

-- A copy that is out of date passes the guard on its old state: whatever state the row is in by
-- then, a terminal one too, it is overwritten.
transition_hub_email_stale :
    (he row : HubEmail) (t : State) (actor : Option ℕ) (now : ℕ) (db : Db)
    → find he.pk db.emails ≡ some row
    → is_terminal row.state ≡ true
    → can_transition he.state t ≡ true
    → let db' = (transition_save he t actor now db).1 in
      (transition_hub_email he t actor now db ≡ ok (transition_save he t actor now db))
      × (row' : HubEmail) × (find he.pk db'.emails ≡ some row')
      × (row'.state ≡ t)
unfolding transition_hub_email transition_save
transition_hub_email_stale he row t actor now db h terminal legal = (
  rw legal,
  transition_row he t now row,
  find-save_self he.pk (transition_row he t now) row db.emails (λ e. refl) h,
  refl,
)

-- The copy of the caller with the fields that `convert_to_ticket` reads again.
abbrev pub reread : HubEmail → HubEmail → HubEmail
reread he locked = record he {
  state = locked.state;
  converted_ticket = locked.converted_ticket;
  first_responded_at = locked.first_responded_at;
}

module _ (he row : HubEmail) (db : Db) (here : find he.pk db.emails ≡ some row) where
  convert_to_ticket-find :
      (has_status : Bool) (actor ticket now : ℕ)
      → convert_to_ticket has_status he actor ticket now db
        ≡ convert_guarded has_status (reread he row) actor ticket now db
  unfolding convert_to_ticket
  convert_to_ticket-find has_status actor ticket now = rw (here, convert_to_ticket)

  dismiss_hub_email-find :
      (actor : ℕ) (reason : String) (now : ℕ)
      → dismiss_hub_email he actor reason now db
        ≡ dismiss_guarded (record he { state = row.state }) actor reason now db
  unfolding dismiss_hub_email
  dismiss_hub_email-find actor reason now = rw (here, dismiss_hub_email)

convert_guarded_open :
    (he : HubEmail) (actor ticket now : ℕ) (db : Db)
    → is_terminal he.state ≡ false
    → convert_guarded true he actor ticket now db ≡ ok (convert_locked he actor ticket now db)
unfolding convert_guarded convert_created same_state can_transition
convert_guarded_open he actor ticket now db open_row =
    ground (arith, can_transition-converted_to_ticket he.state)

convert_guarded_refused :
    (he : HubEmail) (actor ticket now : ℕ) (db : Db)
    → is_terminal he.state ≡ false
    → convert_guarded false he actor ticket now db ≡ raised Error.no_status
unfolding convert_guarded convert_created same_state can_transition
convert_guarded_refused he actor ticket now db open_row =
    ground (arith, can_transition-converted_to_ticket he.state)

convert_guarded_done :
    (has_status : Bool) (he : HubEmail) (actor ticket now done : ℕ) (db : Db)
    → he.state ≡ State.converted_to_ticket
    → he.converted_ticket ≡ some done
    → convert_guarded has_status he actor ticket now db ≡ ok (done, db)
unfolding convert_guarded same_state
convert_guarded_done has_status he actor ticket now done db s t = ground arith

-- The first conversion of an email that is open, of a tenant with a status, creates one ticket and
-- stores it with the row and the inbound email, whose status it sets. Any later conversion, from any
-- copy of the row, returns this ticket and changes nothing, whether the tenant has a status then or not.
-- Where the tenant has no status, the first conversion raises.
pub convert_to_ticket_once :
    (has_status : Bool) (he copy row : HubEmail) (actor actor' ticket ticket' now now' : ℕ)
    (db : Db)
    → find he.pk db.emails ≡ some row
    → is_terminal row.state ≡ false
    → copy.pk ≡ he.pk
    → let db' = (convert_locked (reread he row) actor ticket now db).1 in
      (convert_to_ticket true he actor ticket now db ≡ ok (ticket, db'))
      × (convert_to_ticket false he actor ticket now db ≡ raised Error.no_status)
      × (db'.tickets ≡ ticket ∷ db.tickets)
      × (db'.inbounds
          ≡ save_inbound he.inbound
              (λ i. record i { status = InboundStatus.ticket_created; ticket = some ticket })
              db.inbounds)
      × (row' : HubEmail) × (find he.pk db'.emails ≡ some row')
      × (row'.converted_ticket ≡ some ticket)
      × (convert_to_ticket has_status copy actor' ticket' now' db' ≡ ok (ticket, db'))
unfolding convert_locked
convert_to_ticket_once has_status he copy row actor actor' ticket ticket' now now' db h open_row
      same =
    let write = convert_row (reread he row) ticket now in
    let kept = find-save_self he.pk write row db.emails (λ e. refl) h in
    let db' = (convert_locked (reread he row) actor ticket now db).1 in
    let kept' : find copy.pk db'.emails ≡ some (write row) =
      ap (λ k. find k db'.emails) same ∙ kept in
    (
      convert_to_ticket-find he row db h true actor ticket now
          ∙ convert_guarded_open (reread he row) actor ticket now db open_row,
      convert_to_ticket-find he row db h false actor ticket now
          ∙ convert_guarded_refused (reread he row) actor ticket now db open_row,
      refl,
      refl,
      write row,
      kept,
      refl,
      convert_to_ticket-find copy (write row) db' kept' has_status actor' ticket' now'
          ∙ convert_guarded_done has_status (reread copy (write row)) actor' ticket' now' ticket db'
              refl refl,
    )

-- A dismissed email stays as it is: converting it raises, dismissing it again does nothing.
dismissed_kept :
    (has_status : Bool) (he row : HubEmail) (actor ticket now : ℕ) (reason : String) (db : Db)
    → find he.pk db.emails ≡ some row
    → row.state ≡ State.dismissed
    → (convert_to_ticket has_status he actor ticket now db ≡ raised Error.illegal_transition)
      × (dismiss_hub_email he actor reason now db ≡ ok (record he { state = State.dismissed }, db))
unfolding convert_guarded dismiss_guarded can_transition same_state
dismissed_kept has_status he row actor ticket now reason db h d = (
  convert_to_ticket-find he row db h has_status actor ticket now ∙ ground arith,
  dismiss_hub_email-find he row db h actor reason now ∙ ground arith,
)

-- An email that was converted cannot be dismissed, whatever the caller's copy says.
converted_kept :
    (he row : HubEmail) (actor now : ℕ) (reason : String) (db : Db)
    → find he.pk db.emails ≡ some row
    → row.state ≡ State.converted_to_ticket
    → dismiss_hub_email he actor reason now db ≡ raised Error.illegal_transition
unfolding dismiss_guarded can_transition same_state
converted_kept he row actor now reason db h c =
    dismiss_hub_email-find he row db h actor reason now ∙ ground arith

module _ (he : HubEmail) (actor : Option ℕ) (db : Db) where
  escalate_legal :
      can_transition he.state State.escalated ≡ true
      → escalate_hub_email he actor db ≡ escalate_save he actor db
  unfolding escalate_hub_email
  escalate_legal h = rw h

  escalate_illegal :
      can_transition he.state State.escalated ≡ false → escalate_hub_email he actor db ≡ (he, db)
  unfolding escalate_hub_email
  escalate_illegal h = rw h

  -- A hub email without a lead schedules no notification; the rows are the same.
  escalate_save-emails :
      (escalate_save he actor db).1.emails ≡ save he.pk (escalate_row he db) db.emails
  unfolding escalate_save
  escalate_save-emails = ground arith

  escalate_save-copy : (escalate_save he actor db).0 ≡ escalate_row he db he
  unfolding escalate_save
  escalate_save-copy = refl

  escalate_row-fields :
      (row : HubEmail)
      → ((escalate_row he db row).pk ≡ row.pk)
        × ((escalate_row he db row).state ≡ State.escalated)
        × ((escalate_row he db row).escalation_count ≡ he.escalation_count + 1)
  unfolding escalate_row
  escalate_row-fields row = (refl, refl, refl)

  escalate_save-find :
      find he.pk db.emails ≡ some he
      → find he.pk (escalate_save he actor db).1.emails ≡ some (escalate_save he actor db).0
  escalate_save-find h =
      rw (escalate_save-emails, escalate_save-copy)
        (find-save_self he.pk (escalate_row he db) he db.emails (λ e. (escalate_row-fields e).0) h)

not_escalated_twice : can_transition State.escalated State.escalated ≡ false
unfolding can_transition
not_escalated_twice = refl

-- Escalation counts exactly the changes of state: from an up-to-date copy it adds one to the
-- counter of the row when the state may become escalated, and a second escalation, or one of a
-- row that may not, changes nothing.
escalate_hub_email_once :
    (he : HubEmail) (actor actor' : Option ℕ) (db : Db)
    → find he.pk db.emails ≡ some he
    → let (he', db') = escalate_hub_email he actor db in
      (find he.pk db'.emails ≡ some he')
      × (he'.escalation_count ≡ (
          if can_transition he.state State.escalated
          then he.escalation_count + 1
          else he.escalation_count))
      × (escalate_hub_email he' actor' db' ≡ (he', db'))
escalate_hub_email_once he actor actor' db h =
    elim (Bool-cases (can_transition he.state State.escalated)) [
      | inl legal ↦
          let (p, s, c) = escalate_row-fields he actor db he in
          rw (legal, escalate_legal he actor db legal)
            (
              escalate_save-find he actor db h,
              ap (λ (e : HubEmail). e.escalation_count) (escalate_save-copy he actor db) ∙ c,
              escalate_illegal _ actor' _ (
                  ap (λ (e : HubEmail). can_transition e.state State.escalated)
                    (escalate_save-copy he actor db)
                  ∙ ap (λ t. can_transition t State.escalated) s
                  ∙ not_escalated_twice),
            )
      | inr illegal ↦
          rw (illegal, escalate_illegal he actor db illegal)
            (h, refl, escalate_illegal he actor' db illegal)
    ]
