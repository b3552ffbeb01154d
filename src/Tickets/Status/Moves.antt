-- ===== src/Tickets/Status/Moves.antt =====
-- What sequences of status changes do (apps/tickets/services.py): a closed ticket stays closed, a
-- wait ends where it began, and a breach is announced once, at the closure.
use kanzan.Prelude.{
  ℕ, ◌≡◌, refl, ap, ◌∙◌, true, false, Option, none, some, List, [], ◌∷◌, ◌==◌, if◌then◌else◌, first,
  keep, arith, Bool-cases, inl, inr,
}
use text.Mathlib.Text.{◌==◌ as str_eq}
use kanzan.Tickets.Rows.{Status, Ticket, Result, ok, raised}
use kanzan.Tickets.Status.{
  pauses, snapshot, solution, closure, breach, changed, is_same, change_ticket_status,
  resume_from_wait, resume_target, refetch, transition_ticket_status, validate_status_transition,
  allowed_transitions,
}

-- The ticket after a request for a status: a refused request leaves it as it is.
abbrev pub kept : Ticket → Result → Ticket
kept t (ok t2 effects) = t2
kept t (raised e) = t

-- The ticket after a sequence of requests, each with its actor and its time.
abbrev pub requests : List (Status × (Option ℕ × ℕ)) → Ticket → Ticket
requests [] t = t
requests ((s, (actor, now)) ∷ rs) t = requests rs (kept t (transition_ticket_status t s actor now))

unchanged_same :
    (t : Ticket) (s : Status) (actor : Option ℕ) (now : ℕ)
    → is_same t.status s ≡ true
    → kept t (transition_ticket_status t s actor now) ≡ t
unfolding transition_ticket_status change_ticket_status
unchanged_same t s actor now same = elim (Bool-cases (validate_status_transition t s)) [
  | inl allowed ↦ rw (allowed, same) refl
  | inr refused ↦ rw refused refl
]

refused_other :
    (t : Ticket) (s : Status) (c : Status)
    → t.status ≡ some c
    → c.slug ≡ "closed"
    → (c.pk == s.pk) ≡ false
    → validate_status_transition t s ≡ false
unfolding validate_status_transition allowed_transitions
refused_other t s c at slug other = rw (at, other, slug) refl

kept_refused :
    (t : Ticket) (s : Status) (actor : Option ℕ) (now : ℕ)
    → validate_status_transition t s ≡ false
    → kept t (transition_ticket_status t s actor now) ≡ t
unfolding transition_ticket_status
kept_refused t s actor now refused = rw refused refl

refused_closed :
    (t : Ticket) (s : Status) (actor : Option ℕ) (now : ℕ) (c : Status)
    → t.status ≡ some c
    → c.slug ≡ "closed"
    → kept t (transition_ticket_status t s actor now) ≡ t
refused_closed t s actor now c at slug = elim (Bool-cases (c.pk == s.pk)) [
  | inl same ↦ unchanged_same t s actor now (ap (λ o. is_same o s) at ∙ same)
  | inr other ↦ kept_refused t s actor now (refused_other t s c at slug other)
]

-- A ticket whose status has the slug `closed` is left as it is by every sequence of calls of
-- `transition_ticket_status`, whatever the statuses asked for.
requests_closed :
    (rs : List (Status × (Option ℕ × ℕ))) (t : Ticket) (c : Status)
    → t.status ≡ some c
    → c.slug ≡ "closed"
    → requests rs t ≡ t
requests_closed [] t c at slug = refl
requests_closed ((s, (actor, now)) ∷ rs) t c at slug =
    ap (requests rs) (refused_closed t s actor now c at slug) ∙ requests_closed rs t c at slug

module _ (old : Option Status) (new_status : Status) (actor : Option ℕ) (now : ℕ) (t : Ticket) where
  changed-pauses :
      new_status.pauses_sla ≡ true
      → pauses old ≡ false
      → (changed old new_status actor now t).pre_wait_status ≡ old
  unfolding changed snapshot solution closure breach
  changed-pauses p q = ground arith

  changed-status_new : (changed old new_status actor now t).status ≡ some new_status
  unfolding changed
  changed-status_new = ground arith

differs_sym : (a b : ℕ) → (a == b) ≡ false → (b == a) ≡ false
differs_sym a b h = ground arith

target_snapshot :
    (statuses : List Status) (t : Ticket) (s : Status)
    → refetch statuses t.pre_wait_status ≡ some s
    → s.pauses_sla ≡ false
    → s.is_closed ≡ false
    → resume_target statuses t ≡ some s
unfolding resume_target
target_snapshot statuses t s found q o = rw (found, resume_target, o, q) refl

resumed :
    (statuses : List Status) (t : Ticket) (s : Status) (actor : Option ℕ) (now : ℕ)
    → pauses t.status ≡ true
    → is_same t.status s ≡ false
    → resume_target statuses t ≡ some s
    → (resume_from_wait statuses t actor now).0 ≡ changed t.status s actor now t
unfolding resume_from_wait change_ticket_status
resumed statuses t s actor now waiting other target = rw (waiting, target, other) refl

module _ (new_status : Status) (actor : Option ℕ) (now : ℕ) (t : Ticket) where
  change-changed :
      is_same t.status new_status ≡ false
      → (change_ticket_status t new_status actor now).0 ≡ changed t.status new_status actor now t
  unfolding change_ticket_status
  change-changed other = rw other refl

-- A ticket that is put from a status that neither pauses the clock nor is closed into one that
-- pauses it, by `change_ticket_status`, is put back by `resume_from_wait` into the status it had,
-- when that status is still found with the same fields.
pub resume_from_wait-change_ticket_status :
    (statuses : List Status) (t : Ticket) (s w : Status)
    → (actor replier : Option ℕ) (now later : ℕ) → t.status ≡ some s
    → s.pauses_sla ≡ false
    → s.is_closed ≡ false
    → w.pauses_sla ≡ true
    → (s.pk == w.pk) ≡ false
    → refetch statuses (some s) ≡ some s
    → (resume_from_wait statuses (change_ticket_status t w actor now).0 replier later).0.status
      ≡ some s
resume_from_wait-change_ticket_status statuses t s w actor replier now later at q o p other found =
    let back : (w.pk == s.pk) ≡ false = differs_sym s.pk w.pk other in
    let waiting : Ticket = changed t.status w actor now t in
    let put : (change_ticket_status t w actor now).0 ≡ waiting =
      change-changed w actor now t (ap (λ o. is_same o w) at ∙ other) in
    let in_w : waiting.status ≡ some w = changed-status_new t.status w actor now t in
    let runs : pauses t.status ≡ false = rw at q in
    let before : waiting.pre_wait_status ≡ some s =
      changed-pauses t.status w actor now t p runs ∙ at in
    let target : resume_target statuses waiting ≡ some s =
      target_snapshot statuses waiting s (ap (refetch statuses) before ∙ found) q o in
    let is_waiting : pauses waiting.status ≡ true = ap pauses in_w ∙ p in
    let moves : is_same waiting.status s ≡ false = ap (λ o. is_same o s) in_w ∙ back in
    ap (λ t. (resume_from_wait statuses t replier later).0.status) put
    ∙ ap (λ t. t.status) (resumed statuses waiting s replier later is_waiting moves target)
    ∙ changed-status_new waiting.status s replier later waiting

-- The target of a resumption depends on the snapshot only.
pub resume_target-pre_wait_status :
    (statuses : List Status) (t u : Ticket)
    → t.pre_wait_status ≡ u.pre_wait_status
    → resume_target statuses t ≡ resume_target statuses u
unfolding resume_target
resume_target-pre_wait_status statuses t u e =
    ap
      (λ s. elim (refetch statuses s) [
        | none ↦ first (keep (λ r. str_eq r.slug "open") statuses)
        | some r ↦
            if r.is_closed
            then first (keep (λ r. str_eq r.slug "open") statuses)
            else if r.pauses_sla
            then first (keep (λ r. str_eq r.slug "open") statuses)
            else some r
      ])
      e
