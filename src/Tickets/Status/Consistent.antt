-- ===== src/Tickets/Status/Consistent.antt =====
-- The times and snapshots of a ticket agree with its status, through every change of status
-- (apps/tickets/services.py).
use kanzan.Prelude.{ℕ, ◌≡◌, Bool, true, false, Option, none, some, arith, Bool-cases, inl, inr}
use kanzan.Tickets.Rows.{Status, Ticket}
use kanzan.Tickets.Status.{
  is_resolved, is_closed, pauses, snapshot, solution, closure, changed, is_same,
  change_ticket_status,
}

abbrev pub is_set : Option ℕ → Bool
is_set none = false
is_set (some _) = true

-- The closure times are set while the status is closed, the solution time while it is resolved,
-- and the snapshot and the task are kept only where the status pauses or is resolved.
pub record IsConsistent (t : Ticket) : Type 0 where
  pub closed_when : is_set t.closed_at ≡ is_closed t.status
  pub resolved_when : is_set t.resolved_at ≡ is_closed t.status
  pub solved_when : is_set t.solved_at ≡ is_resolved t.status
  pub task_when : is_resolved t.status ≡ false → t.auto_close_task_id ≡ none
  pub snapshot_when : pauses t.status ≡ false → t.pre_wait_status ≡ none

module _ (old : Option Status) (new_status : Status) (actor : Option ℕ) (now : ℕ) (t : Ticket) where
  changed-closed_at :
      (changed old new_status actor now t).closed_at ≡ (closure old new_status now t).closed_at
  unfolding changed closure
  changed-closed_at = ground arith

  changed-resolved_at :
      (changed old new_status actor now t).resolved_at ≡ (closure old new_status now t).resolved_at
  unfolding changed closure
  changed-resolved_at = ground arith

  changed-solved_at :
      (changed old new_status actor now t).solved_at ≡ (solution old new_status now t).solved_at
  unfolding changed solution
  changed-solved_at = ground arith

  pub changed-status : (changed old new_status actor now t).status ≡ some new_status
  unfolding changed
  changed-status = ground arith

  pub changed-sla_paused_at : (changed old new_status actor now t).sla_paused_at ≡ t.sla_paused_at
  unfolding changed
  changed-sla_paused_at = ground arith

  pub changed-dues :
      ((changed old new_status actor now t).sla_first_response_due ≡ t.sla_first_response_due)
      × ((changed old new_status actor now t).sla_resolution_due ≡ t.sla_resolution_due)
  unfolding changed
  changed-dues = (ground arith, ground arith)

  pub changed-auto_close_task_id :
      (changed old new_status actor now t).auto_close_task_id
      ≡ (solution old new_status now t).auto_close_task_id
  unfolding changed solution
  changed-auto_close_task_id = ground arith

  changed-pre_wait_status :
      (changed old new_status actor now t).pre_wait_status
      ≡ (snapshot old new_status t).pre_wait_status
  unfolding changed snapshot
  changed-pre_wait_status = ground arith

  closure-closed_at :
      is_set t.closed_at ≡ is_closed old
      → is_set (closure old new_status now t).closed_at ≡ new_status.is_closed
  unfolding closure
  closure-closed_at h = ground arith

  closure-resolved_at :
      is_set t.resolved_at ≡ is_closed old
      → is_set (closure old new_status now t).resolved_at ≡ new_status.is_closed
  unfolding closure
  closure-resolved_at h = ground arith

  solution-solved_at :
      is_set t.solved_at ≡ is_resolved old
      → is_set (solution old new_status now t).solved_at ≡ is_resolved (some new_status)
  unfolding solution
  solution-solved_at h = ground arith

  pub solution-auto_close_task_id :
      (is_resolved old ≡ false → t.auto_close_task_id ≡ none)
      → is_resolved (some new_status) ≡ false
      → (solution old new_status now t).auto_close_task_id ≡ none
  unfolding solution
  solution-auto_close_task_id h new_open = ground arith

  pub changed_without_task :
      t.auto_close_task_id ≡ none → (changed old new_status actor now t).auto_close_task_id ≡ none
  unfolding changed
  changed_without_task h = ground arith

  pub changed_drops_task :
      is_resolved old ≡ true
      → is_resolved (some new_status) ≡ false
      → (changed old new_status actor now t).auto_close_task_id ≡ none
  unfolding changed
  changed_drops_task h k = ground arith

  snapshot-pre_wait_status :
      (pauses old ≡ false → t.pre_wait_status ≡ none)
      → new_status.pauses_sla ≡ false
      → (snapshot old new_status t).pre_wait_status ≡ none
  unfolding snapshot
  snapshot-pre_wait_status h runs = ground arith

changed-IsConsistent :
    (new_status : Status) (actor : Option ℕ) (now : ℕ) (t : Ticket)
    → IsConsistent t
    → IsConsistent (changed t.status new_status actor now t)
changed-IsConsistent s actor now t c =
    let old = t.status in
    let at : (changed old s actor now t).status ≡ some s = changed-status old s actor now t in
    record {
      closed_when =
          rw (changed-closed_at old s actor now t, at)
            (closure-closed_at old s actor now t c.closed_when);
      resolved_when =
          rw (changed-resolved_at old s actor now t, at)
            (closure-resolved_at old s actor now t c.resolved_when);
      solved_when =
          rw (changed-solved_at old s actor now t, at)
            (solution-solved_at old s actor now t c.solved_when);
      task_when =
          rw (changed-auto_close_task_id old s actor now t, at)
            (solution-auto_close_task_id old s actor now t c.task_when);
      snapshot_when =
          rw (changed-pre_wait_status old s actor now t, at)
            (snapshot-pre_wait_status old s actor now t c.snapshot_when);
    }

-- Whatever the new status, a change of status keeps the closure times, the solution time, the
-- pending task and the snapshot in agreement with the status.
pub change_ticket_status-IsConsistent :
    (t : Ticket) (new_status : Status) (actor : Option ℕ) (now : ℕ)
    → IsConsistent t
    → IsConsistent (change_ticket_status t new_status actor now).0
unfolding change_ticket_status
change_ticket_status-IsConsistent t new_status actor now c =
    elim (Bool-cases (is_same t.status new_status)) [
      | inl same ↦ rw same c
      | inr other ↦ rw other (changed-IsConsistent new_status actor now t c)
    ]
