-- ===== src/Tickets/Policy/Edited.antt =====
-- The deadlines after a policy is edited (apps/tickets/signals.py).
use kanzan.Prelude.{
  ℕ, ◌≡◌, ◌*◌, refl, false, Option, none, some, List, [], ◌∷◌, ◌==◌, if◌then◌else◌, map, is_in,
  length, ltb, arith, All, Bool-cases, inl, inr,
}
use mathlib.Core.Path.{subst, sym, ◌∙◌}
use kanzan.Sla.Clock.{Zones, Tenant, minute}
use kanzan.Sla.Add.{add_business_time}
use kanzan.Tickets.Rows.{Ticket}
use kanzan.Tickets.Escalate.{SlaPolicy}
use kanzan.Tickets.Policy.{
  is_affected, affected_ids, apply_policy_to_tickets, propagate_to, propagate_sla_policy_change,
  propagate_tasks,
}

-- The keys of the tickets are distinct.
abbrev pub HasKeys : List Ticket → Type 0
HasKeys [] = Unit
HasKeys (t ∷ ts) = All (λ u. (u.pk == t.pk) ≡ false) ts × HasKeys ts

is_in-affected_ids :
    (policy k : ℕ) (ts : List Ticket)
    → All (λ u. (u.pk == k) ≡ false) ts
    → is_in k (affected_ids policy ts) ≡ false
unfolding affected_ids
is_in-affected_ids policy k [] h = refl
is_in-affected_ids policy k (t ∷ ts) h = ground (arith, is_in-affected_ids policy k ts h.1)

-- The rows whose keys are listed are the affected ones.
abbrev Lists : ℕ → List ℕ → List Ticket → Type 0
Lists policy ids = All (λ t. is_in t.pk ids ≡ is_affected policy t)

Lists-cons :
    (policy k : ℕ) (ids : List ℕ) (ts : List Ticket)
    → All (λ u. (u.pk == k) ≡ false) ts
    → Lists policy ids ts
    → Lists policy (k ∷ ids) ts
Lists-cons policy k ids [] h l = tt
Lists-cons policy k ids (t ∷ ts) h l =
    (ground (arith, h.0, l.0), Lists-cons policy k ids ts h.1 l.1)

affected_ids-Lists :
    (policy : ℕ) (ts : List Ticket) → HasKeys ts → Lists policy (affected_ids policy ts) ts
unfolding affected_ids
affected_ids-Lists policy [] h = tt
affected_ids-Lists policy (t ∷ ts) h =
    let later = affected_ids-Lists policy ts h.1 in
    let unlisted = is_in-affected_ids policy t.pk ts h.0 in
    elim (Bool-cases (is_affected policy t)) [
      | inl e ↦
          let ids : affected_ids policy (t ∷ ts) ≡ t.pk ∷ affected_ids policy ts =
            ground (arith, e) in
          subst (λ l. Lists policy l (t ∷ ts)) (sym ids)
            (ground (arith, e), Lists-cons policy t.pk (affected_ids policy ts) ts h.0 later)
      | inr e ↦
          let ids : affected_ids policy (t ∷ ts) ≡ affected_ids policy ts = ground (arith, e) in
          subst (λ l. Lists policy l (t ∷ ts)) (sym ids) (ground (arith, e, unlisted), later)
    ]

module _ (z : Zones) (tenant : Tenant) where
  abbrev pub due_after : ℕ → ℕ → Option ℕ
  due_after start minutes = some (add_business_time z start (minutes * minute) tenant)

  -- A ticket of the policy with an open status has the deadlines that the policy gives from its
  -- creation.
  abbrev pub expected : SlaPolicy → Ticket → Ticket
  expected policy t =
      let due = record t {
        sla_first_response_due = due_after t.created_at policy.terms.first_response_minutes;
        sla_resolution_due = due_after t.created_at policy.terms.resolution_minutes;
      } in
      elim t.status [
        | none ↦ t
        | some s ↦
            if s.is_closed
            then t
            else elim t.sla_policy [ none ↦ t | some p ↦ if p == policy.pk then due else t ]
      ]

  apply-expected :
      (policy : SlaPolicy) (ids : List ℕ) (ts : List Ticket)
      → Lists policy.pk ids ts
      → (apply_policy_to_tickets z tenant policy ids ts).0 ≡ map (expected policy) ts
  unfolding apply_policy_to_tickets
  apply-expected policy ids [] l = refl
  apply-expected policy ids (t ∷ ts) l = ground (arith, apply-expected policy ids ts l.1, l.0)

  apply-none :
      (policy : SlaPolicy) (ts : List Ticket)
      → (apply_policy_to_tickets z tenant policy [] ts).0 ≡ ts
  unfolding apply_policy_to_tickets
  apply-none policy [] = refl
  apply-none policy (t ∷ ts) = ground (arith, apply-none policy ts)

  propagate_to-tickets :
      (policy : SlaPolicy) (ids : List ℕ) (ts : List Ticket)
      → let p = propagate_to z tenant policy ids ts in
        (propagate_tasks z tenant policy p p.tasks).tickets
        ≡ (apply_policy_to_tickets z tenant policy ids ts).0
  unfolding propagate_tasks
  propagate_to-tickets policy [] ts = sym (apply-none policy ts)
  propagate_to-tickets policy (i ∷ ids) ts = elim (Bool-cases (ltb 50 (length (i ∷ ids)))) [
    | inl e ↦ rw e refl
    | inr e ↦ rw e refl
  ]

  -- When an edited policy is saved and its tasks, if any, are run, the tickets whose policy it is
  -- and whose status is open have the deadlines that the policy gives from their creation, and every
  -- other ticket is as before, whether 50 tickets are affected or more.
  pub propagate_sla_policy_change-expected :
      (policy : SlaPolicy) (ts : List Ticket)
      → HasKeys ts
      → let p = propagate_sla_policy_change z tenant false policy ts in
        (propagate_tasks z tenant policy p p.tasks).tickets ≡ map (expected policy) ts
  unfolding propagate_sla_policy_change
  propagate_sla_policy_change-expected policy ts h =
      propagate_to-tickets policy (affected_ids policy.pk ts) ts
      ∙ apply-expected policy (affected_ids policy.pk ts) ts (affected_ids-Lists policy.pk ts h)
