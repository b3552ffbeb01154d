-- ===== src/Hub/Reassign.antt =====
-- `reassign_hub_email` of apps/inbox_hub/services.py.
pub mod Load
use kanzan.Prelude.{
  ℕ, suc, ◌+◌, ◌-◌, Bool, true, false, ◌&&◌, not, Option, none, some, ◌∷◌, ◌==◌, ltb, if◌then◌else◌,
}
use kanzan.Hub.State
use kanzan.Hub.State.{same_state, is_terminal}
use kanzan.Hub.Store.{
  HubEmail, Inbound, InboxStatus, Availability, Reason, Action, LiveEvent, OnCommit, Db, Error,
  Result, ok, raised, find, save, save_inbound, is_row_of, update_where, is_member, write_log,
  broadcast, call_on_commit,
}
use kanzan.Hub.Services.{is_none, stamp}

-- `o == some k`
abbrev pub is_key : Option ℕ → ℕ → Bool
is_key none k = false
is_key (some j) k = j == k

-- The inbound email is handed to the agent's own inbox.
abbrev pub hand_over : ℕ → Inbound → Inbound
hand_over user i = record i {
  assignee = some user;
  inbox_status = InboxStatus.pending;
  is_read = false;
}

abbrev pub add_load : ℕ → Availability → Availability
add_load now a = record a {
  current_ticket_count = a.current_ticket_count + 1;
  last_activity = some now;
}

abbrev pub drop_load : Availability → Availability
drop_load a = record a { current_ticket_count = a.current_ticket_count - 1 }

abbrev pub touch : ℕ → Availability → Availability
touch now a = record a { last_activity = some now }

abbrev pub is_loaded_row : ℕ → ℕ → Availability → Bool
is_loaded_row tenant user a = is_row_of tenant user a && ltb 0 a.current_ticket_count

-- The load counters, from the assignee before.
pub reload : ℕ → Option ℕ → ℕ → ℕ → Db → Db
reload tenant old_user new_user now db =
    if is_key old_user new_user
    then record db {
      availability = update_where (is_row_of tenant new_user) (touch now) db.availability;
    }
    else (let added = update_where (is_row_of tenant new_user) (add_load now) db.availability in
        record db {
          availability = elim old_user [
            | none ↦ added
            | some old ↦ update_where (is_loaded_row tenant old) drop_load added
          ];
        })

-- `is_reassign`
abbrev pub is_other : Option ℕ → ℕ → Bool
is_other none new_user = false
is_other (some old) new_user = not (old == new_user)

-- The row that is saved.
abbrev pub taken_over : ℕ → Option ℕ → ℕ → HubEmail → HubEmail
taken_over new_user actor now he = record he {
  assignee = some new_user;
  first_assigned_at = stamp he.first_assigned_at now;
  state = if same_state he.state State.new then State.assigned else he.state;
  first_responded_at =
      if is_key actor new_user then stamp he.first_responded_at now else he.first_responded_at;
}

-- The part after the guards, on the locked row.
pub reassign_locked : HubEmail → ℕ → Option ℕ → ℕ → Db → HubEmail × Db
reassign_locked he new_user actor now db =
    let he' = taken_over new_user actor now he in
    let other = is_other he.assignee new_user in
    let db1 = record db {
      emails = save he.pk (λ row. he') db.emails;
      inbounds = save_inbound he.inbound (hand_over new_user) db.inbounds;
      assignments =
          record {
            tenant = he.tenant;
            hub_email = he.pk;
            assigned_to = new_user;
            assigned_by = actor;
            reason = if other then Reason.reassignment else Reason.manual;
            created_at = now;
          }
          ∷ db.assignments;
    } in
    let db2 = reload he.tenant he.assignee new_user now db1 in
    let db3 =
      write_log he.pk actor (if other then Action.email_reassigned else Action.email_agent_assigned)
        db2 in
    let db4 = broadcast (if other then LiveEvent.reassigned else LiveEvent.assigned) he' db3 in
    (he', call_on_commit (OnCommit.notify_reassignment he.pk new_user) db4)

-- `reassign_hub_email`
pub reassign_hub_email : HubEmail → ℕ → Option ℕ → ℕ → Db → Result (HubEmail × Db)
reassign_hub_email hub_email new_user actor now db =
    if not (is_member hub_email.tenant new_user db.members)
    then raised Error.not_a_member
    else elim (find hub_email.pk db.emails) [
      | none ↦ raised Error.does_not_exist
      | some he ↦
          if is_terminal he.state
          then raised Error.terminal_state
          else ok (reassign_locked he new_user actor now db)
    ]
