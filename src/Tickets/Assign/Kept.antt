-- ===== src/Tickets/Assign/Kept.antt =====
-- An assignment keeps the times and snapshots of a ticket in agreement with its status
-- (apps/tickets/services.py).
use kanzan.Prelude.{
  ℕ, ◌≡◌, ◌⊎◌, refl, sym, ap, ◌∙◌, Bool, true, false, ◌&&◌, not, Option, none, some, List, [], ◌∷◌,
  arith, Bool-cases, Option-cases, inl, inr, keep, first, All, is_in,
}
use kanzan.Tickets.Rows.{Status, Ticket, Result, ok, raised}
use kanzan.Tickets.Status.{is_resolved, is_closed, pauses}
use kanzan.Tickets.Status.Consistent.{IsConsistent, is_set}
use kanzan.Tickets.Assign.{auto_status, or_else, given, assign_ticket}
use text.Mathlib.Text.{◌==◌ as str_eq}

-- A status that a ticket waits to be worked on: no time and no snapshot belongs to it.
abbrev pub is_plain : Status → Bool
is_plain s = not s.is_closed && not s.pauses_sla && not (is_resolved (some s))

-- The default status and the status `in-progress` are plain.
abbrev pub HasPlainStart : Status → Type 0
HasPlainStart s =
    (s.is_default ≡ true → s.is_closed ≡ false → is_plain s ≡ true)
    × (str_eq s.slug "in-progress" ≡ true → is_plain s ≡ true)

module _ (P : Status → Type 0) (p : Status → Bool) where
  keep-yes : (r : Status) (rs : List Status) → p r ≡ true → keep p (r ∷ rs) ≡ r ∷ keep p rs
  keep-yes r rs e = rw e refl

  keep-not : (r : Status) (rs : List Status) → p r ≡ false → keep p (r ∷ rs) ≡ keep p rs
  keep-not r rs e = rw e refl

  All-first :
      (statuses : List Status) (s : Status)
      → All P statuses
      → first (keep p statuses) ≡ some s
      → P s × (p s ≡ true)
  All-first [] s h found = ground arith
  All-first (r ∷ rs) s (h, hs) found = elim (Bool-cases (p r)) [
    | inl e ↦
        let same : some r ≡ some s = sym (ap first (keep-yes r rs e)) ∙ found in
        let at : r ≡ s = ground arith in rw⁻¹ at (h, e)
    | inr e ↦ All-first rs s hs (sym (ap first (keep-not r rs e)) ∙ found)
  ]

module _ (statuses : List Status) (settings : Option Bool)
    (valid : All HasPlainStart statuses) where
  -- What an automatic change of status tells of the old status and the new one.
  auto_status-found :
      (old s : Status)
      → auto_status statuses settings (some old) ≡ some s
      → (old.is_default ≡ true)
        × (old.is_closed ≡ false)
        × (first (keep (λ r. str_eq r.slug "in-progress") statuses) ≡ some s)
  unfolding auto_status
  auto_status-found old s found = ground arith

  auto_status-is_plain :
      (old s : Status)
      → HasPlainStart old
      → auto_status statuses settings (some old) ≡ some s
      → (is_plain old ≡ true) × (is_plain s ≡ true)
  auto_status-is_plain old s h found =
      let (default, not_closed, progress) = auto_status-found old s found in
      let (h_s, slug) =
        All-first HasPlainStart (λ r. str_eq r.slug "in-progress") statuses s valid progress in
      (h.0 default not_closed, h_s.1 slug)

plain_parts :
    (s : Status)
    → is_plain s ≡ true
    → (s.is_closed ≡ false) × (s.pauses_sla ≡ false) × (is_resolved (some s) ≡ false)
plain_parts s h = ground arith

-- Plain statuses have the same times and snapshots.
same_times :
    (t : Ticket) (old s : Status)
    → t.status ≡ some old
    → is_plain old ≡ true
    → is_plain s ≡ true
    → IsConsistent t
    → (u : Ticket) → u.status ≡ some s
    → u.closed_at ≡ t.closed_at
    → u.resolved_at ≡ t.resolved_at
    → u.solved_at ≡ t.solved_at
    → u.auto_close_task_id ≡ t.auto_close_task_id
    → u.pre_wait_status ≡ t.pre_wait_status
    → IsConsistent u
same_times t old s at p q c u to e1 e2 e3 e4 e5 =
    let (p1, p2, p3) = plain_parts old p in
    let (q1, q2, q3) = plain_parts s q in
    let closed : is_closed t.status ≡ is_closed u.status =
      ap is_closed at ∙ p1 ∙ sym q1 ∙ sym (ap is_closed to) in
    let resolved : is_resolved t.status ≡ is_resolved u.status =
      ap is_resolved at ∙ p3 ∙ sym q3 ∙ sym (ap is_resolved to) in
    record {
      closed_when = ap is_set e1 ∙ c.closed_when ∙ closed;
      resolved_when = ap is_set e2 ∙ c.resolved_when ∙ closed;
      solved_when = ap is_set e3 ∙ c.solved_when ∙ resolved;
      task_when = λ open_now. e4 ∙ c.task_when (resolved ∙ open_now);
      snapshot_when = λ runs. e5 ∙ c.snapshot_when (ap pauses at ∙ p2);
    }

abbrev pub HasPlainStatus : Ticket → Type 0
HasPlainStatus t = (s : Status) → t.status ≡ some s → HasPlainStart s

-- The status stays, or there is an automatic change of it.
auto_status-cases :
    (statuses : List Status) (settings : Option Bool) (o : Option Status)
    → (or_else (auto_status statuses settings o) o ≡ o)
      ⊎ ((old : Status) × (s : Status) × (o ≡ some old)
          × (auto_status statuses settings (some old) ≡ some s))
unfolding auto_status
auto_status-cases statuses settings none = inl refl
auto_status-cases statuses settings (some old) =
    elim (Option-cases (auto_status statuses settings (some old))) [
      | inl e ↦ inl (ap (λ x. or_else x (some old)) e)
      | inr (s, e) ↦ inr (old, s, refl, e)
    ]

given-IsConsistent :
    (statuses : List Status) (settings : Option Bool) (t : Ticket)
    → (assignee : ℕ) (actor : Option ℕ) (now : ℕ) → All HasPlainStart statuses
    → HasPlainStatus t
    → IsConsistent t
    → IsConsistent (given statuses settings t assignee actor now)
unfolding given
given-IsConsistent statuses settings t assignee actor now valid plain c =
    elim (auto_status-cases statuses settings t.status) [
      | inl stays ↦ record {
        closed_when = c.closed_when ∙ sym (ap is_closed stays);
        resolved_when = c.resolved_when ∙ sym (ap is_closed stays);
        solved_when = c.solved_when ∙ sym (ap is_resolved stays);
        task_when = λ h. c.task_when (sym (ap is_resolved stays) ∙ h);
        snapshot_when = λ h. c.snapshot_when (sym (ap pauses stays) ∙ h);
      }
      | inr (old, s, at, found) ↦
          let (p, q) = auto_status-is_plain statuses settings valid old s (plain old at) found in
          let to : (given statuses settings t assignee actor now).status ≡ some s =
            ap (λ o. or_else (auto_status statuses settings o) o) at
            ∙ ap (λ o. or_else o (some old)) found in
          same_times t old s at p q c (given statuses settings t assignee actor now) to refl refl
            refl refl refl
    ]

-- The ticket in a result, or the one before it.
abbrev pub saved : Ticket → Result → Ticket
saved t (ok u effects) = u
saved t (raised e) = t

-- Where the default status and the status `in-progress` of the tenant neither close, pause nor
-- resolve a ticket, `assign_ticket` leaves the closure times, the solution time, the pending task
-- and the snapshot in agreement with the status, also when it changes the status by itself.
assign_ticket-IsConsistent :
    (members : List ℕ) (statuses : List Status) (settings : Option Bool) (t : Ticket)
    → (assignee : ℕ) (actor : Option ℕ) (now : ℕ) → All HasPlainStart statuses
    → HasPlainStatus t
    → IsConsistent t
    → IsConsistent (saved t (assign_ticket members statuses settings t assignee actor now))
unfolding assign_ticket
assign_ticket-IsConsistent members statuses settings t assignee actor now valid plain c =
    elim (Bool-cases (is_in assignee members)) [
      | inl member ↦
          rw member (given-IsConsistent statuses settings t assignee actor now valid plain c)
      | inr stranger ↦ rw stranger c
    ]
