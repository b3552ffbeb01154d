-- ===== src/Tickets/Breach/Scan.antt =====
-- The check of a tenant reaches every open ticket (apps/tickets/tasks.py).
use kanzan.Prelude.{
  ℕ, zero, suc, ◌≡◌, ◌⊎◌, refl, ap, ◌∙◌, Bool, true, false, ◌&&◌, ◌||◌, some, List, [], ◌∷◌, ◌++◌,
  ◌*◌, ltb, if◌then◌else◌, get_elem?, arith, Bool-cases, inl, inr,
}
use kanzan.Sla.Clock.{Zones, Tenant, minute, get_business_config}
use kanzan.Sla.Count.{get_effective_elapsed_minutes}
use kanzan.Sla.Count.Returns.{TimesOfDay, get_effective_elapsed_minutes_returns}
use kanzan.Tickets.Rows.{Ticket, Effect, Breach, response_breach, resolution_breach}
use kanzan.Tickets.Status.{is_closed}
use kanzan.Tickets.Pause.{is_missing}
use kanzan.Tickets.Escalate.{SlaPolicy, policy_for, same_priority}
use kanzan.Tickets.Breach.{
  check_ticket_sla, is_watched, check_row, check_tickets, check_policy, check_tenant_sla,
}
use kanzan.Tickets.Breach.Rules.{Watched, Team, EscalationRule}
use kanzan.Tickets.Breach.Flagged.{check_ticket_sla_flags}

abbrev pub flag : Breach → Ticket → Bool
flag response_breach t = t.sla_response_breached
flag resolution_breach t = t.sla_resolution_breached

-- The time that counts has passed the limit of the policy, and what the limit is for is still to
-- come.
abbrev pub is_over : Breach → SlaPolicy → ℕ → Ticket → Bool
is_over response_breach p m t =
    is_missing t.first_responded_at && ltb (p.terms.first_response_minutes * minute) m
is_over resolution_breach p m t =
    is_missing t.resolved_at && ltb (p.terms.resolution_minutes * minute) m

module _ (z : Zones) (tenant : Tenant) (team : Team) (rules : ℕ → List EscalationRule)
    (valid : TimesOfDay z (get_business_config z tenant)) where
  check_ticket_sla-flag :
      (b : Breach) (p : SlaPolicy) (now m : ℕ) (w : Watched)
      → get_effective_elapsed_minutes z w.ticket.created_at w.pauses p.terms tenant now ≡ some m
      → (u : Watched × List Effect) × (check_ticket_sla z tenant team rules p now w ≡ some u)
        × (flag b u.0.ticket ≡ (flag b w.ticket || is_over b p m w.ticket))
  check_ticket_sla-flag response_breach p now m w e =
      let (u, here, f, _) = check_ticket_sla_flags z tenant team rules valid p now m w e in
      (u, here, ground arith)
  check_ticket_sla-flag resolution_breach p now m w e =
      let (u, here, _, f) = check_ticket_sla_flags z tenant team rules valid p now m w e in
      (u, here, ground arith)

  -- A row is checked with a result, and a flag stays raised.
  check_row_returns :
      (b : Breach) (p : SlaPolicy) (now : ℕ) (w : Watched)
      → (u : Watched × List Effect) × (check_row z tenant team rules p now w ≡ some u)
        × ((flag b w.ticket ≡ false) ⊎ (flag b u.0.ticket ≡ true))
  unfolding check_row
  check_row_returns b p now w = elim (Bool-cases (is_watched z tenant team rules p w)) [
    | inl on ↦
        let (m, e) =
          get_effective_elapsed_minutes_returns z w.ticket.created_at w.pauses p.terms tenant now
            valid in
        let (u, here, f) = check_ticket_sla-flag b p now m w e in (u, rw on here, ground arith)
    | inr off ↦ ((w, []), rw off refl, ground arith)
  ]

  check_tickets_returns :
      (p : SlaPolicy) (now : ℕ) (ws : List Watched)
      → (r : List Watched × List Effect) × (check_tickets z tenant team rules p now ws ≡ some r)
  unfolding check_tickets
  check_tickets_returns p now [] = (([], []), refl)
  check_tickets_returns p now (w ∷ ws) =
      let (u, here, _) = check_row_returns response_breach p now w in
      let (r, rest) = check_tickets_returns p now ws in
      ((u.0 ∷ r.0, u.1 ++ r.1), rw (here, rest) refl)

  check_tickets-get_elem? :
      (p : SlaPolicy) (now : ℕ) (ws : List Watched) (i : ℕ) (w : Watched)
      → get_elem? ws i ≡ some w
      → (r : List Watched × List Effect) × (u : Watched × List Effect) × (check_tickets z tenant
            team rules p now ws
          ≡ some r)
        × (check_row z tenant team rules p now w ≡ some u)
        × (get_elem? r.0 i ≡ some u.0)
  unfolding check_tickets
  check_tickets-get_elem? p now [] i w at = cc
  check_tickets-get_elem? p now (x ∷ ws) zero w at =
      let (r, rest) = check_tickets_returns p now ws in
      let (u, here, _) = check_row_returns response_breach p now x in
      let same : x ≡ w = ground arith in
      ((u.0 ∷ r.0, u.1 ++ r.1), u, rw (here, rest) refl, rw (← same) here, refl)
  check_tickets-get_elem? p now (x ∷ ws) (suc i) w at =
      let (u, here, _) = check_row_returns response_breach p now x in
      let (r, v, rest, there, found) = check_tickets-get_elem? p now ws i w at in
      ((u.0 ∷ r.0, u.1 ++ r.1), v, rw (here, rest) refl, there, found)

  -- The round of one policy, at one row.
  check_tickets-flag :
      (b : Breach) (p : SlaPolicy) (now : ℕ) (ws : List Watched) (i : ℕ) (w : Watched)
      → get_elem? ws i ≡ some w
      → flag b w.ticket ≡ true
      → (r : List Watched × List Effect) × (v : Watched) × (check_tickets z tenant team rules p now
            ws
          ≡ some r)
        × (get_elem? r.0 i ≡ some v)
        × (flag b v.ticket ≡ true)
  check_tickets-flag b p now ws i w at raised =
      let (r, u, all, here, found) = check_tickets-get_elem? p now ws i w at in
      let (u', here', kept) = check_row_returns b p now w in
      let same : u ≡ u' = ground arith in (r, u.0, all, found, rw same (ground arith))

  check_policy-active :
      (p : SlaPolicy) (now : ℕ) (ws : List Watched)
      → p.is_active ≡ true
      → check_policy z tenant team rules p now ws ≡ check_tickets z tenant team rules p now ws
  unfolding check_policy
  check_policy-active p now ws on =
      ap (λ a. if a then check_tickets z tenant team rules p now ws else some (ws, [])) on

  check_policy-off :
      (p : SlaPolicy) (now : ℕ) (ws : List Watched)
      → p.is_active ≡ false
      → check_policy z tenant team rules p now ws ≡ some (ws, [])
  unfolding check_policy
  check_policy-off p now ws off =
      ap (λ a. if a then check_tickets z tenant team rules p now ws else some (ws, [])) off

  check_tenant_sla-flag :
      (b : Breach) (ps : List SlaPolicy) (now : ℕ) (ws : List Watched) (i : ℕ) (w : Watched)
      → get_elem? ws i ≡ some w
      → flag b w.ticket ≡ true
      → (r : List Watched × List Effect) × (v : Watched) × (check_tenant_sla z tenant team rules ps
            now ws
          ≡ some r)
        × (get_elem? r.0 i ≡ some v)
        × (flag b v.ticket ≡ true)
  unfolding check_tenant_sla
  check_tenant_sla-flag b [] now ws i w at raised = ((ws, []), w, refl, at, raised)
  check_tenant_sla-flag b (p ∷ ps) now ws i w at raised = elim (Bool-cases p.is_active) [
    | inl on ↦
        let (r, v, all, found, up) = check_tickets-flag b p now ws i w at raised in
        let (r', v', all', found', up') = check_tenant_sla-flag b ps now r.0 i v found up in
        let round = check_policy-active p now ws on ∙ all in
        ((r'.0, r.1 ++ r'.1), v', rw (round, all') refl, found', up')
    | inr off ↦
        let (r, v, all, found, up) = check_tenant_sla-flag b ps now ws i w at raised in
        ((r.0, [] ++ r.1), v, rw (check_policy-off p now ws off, all) refl, found, up)
  ]

  -- A round whose policy does not apply to a row leaves it.
  check_policy-get_elem? :
      (p : SlaPolicy) (now : ℕ) (ws : List Watched) (i : ℕ) (w : Watched)
      → get_elem? ws i ≡ some w
      → (same_priority p.priority w.ticket.priority && p.is_active) ≡ false
      → (r : List Watched × List Effect) × (check_policy z tenant team rules p now ws ≡ some r)
        × (get_elem? r.0 i ≡ some w)
  unfolding check_row
  check_policy-get_elem? p now ws i w at other = elim (Bool-cases p.is_active) [
    | inl on ↦
        let (r, u, all, here, found) = check_tickets-get_elem? p now ws i w at in
        let unseen : is_watched z tenant team rules p w ≡ false = ground arith in
        let same : u.0 ≡ w = ground arith in
        (r, check_policy-active p now ws on ∙ all, found ∙ ap some same)
    | inr off ↦ ((ws, []), check_policy-off p now ws off, at)
  ]

  -- Where the hours of the tenant are times of day, a check of the tenant returns, and a ticket
  -- that is not deleted or closed is flagged afterwards if its effective elapsed time is past the
  -- limit of the first active policy for its priority, and it has no first response, or for the
  -- limit of the resolution has not been resolved.
  pub check_tenant_sla_reaches :
      (b : Breach) (ps : List SlaPolicy) (now m : ℕ) (ws : List Watched) (i : ℕ) (w : Watched)
      (p : SlaPolicy)
      → get_elem? ws i ≡ some w
      → w.is_deleted ≡ false
      → is_closed w.ticket.status ≡ false
      → policy_for ps w.ticket.priority ≡ some p
      → get_effective_elapsed_minutes z w.ticket.created_at w.pauses p.terms tenant now ≡ some m
      → is_over b p m w.ticket ≡ true
      → (r : List Watched × List Effect) × (v : Watched) × (check_tenant_sla z tenant team rules ps
            now ws
          ≡ some r)
        × (get_elem? r.0 i ≡ some v)
        × (flag b v.ticket ≡ true)
  unfolding check_tenant_sla check_row
  check_tenant_sla_reaches b [] now m ws i w p at kept open_now has e over = cc
  check_tenant_sla_reaches b (q ∷ ps) now m ws i w p at kept open_now has e over =
      elim (Bool-cases (same_priority q.priority w.ticket.priority && q.is_active)) [
        | inl fits ↦
            let mine : q ≡ p = ground arith in
            let on : q.is_active ≡ true = ground arith in
            let seen : is_watched z tenant team rules q w ≡ true = ground arith in
            let (r, u, all, here, found) = check_tickets-get_elem? q now ws i w at in
            let (u', here', f) = check_ticket_sla-flag b q now m w (rw mine e) in
            let same : u ≡ u' = ground arith in
            let up : flag b u.0.ticket ≡ true =
              ap (λ (v : Watched × List Effect). flag b v.0.ticket) same
              ∙ f
              ∙ ap (λ x. flag b w.ticket || x) (ap (λ s. is_over b s m w.ticket) mine ∙ over)
              ∙ ground arith in
            let (r', v', all', found', up') = check_tenant_sla-flag b ps now r.0 i u.0 found up in
            let round = check_policy-active q now ws on ∙ all in
            ((r'.0, r.1 ++ r'.1), v', rw (round, all') refl, found', up')
        | inr other ↦
            let has' : policy_for ps w.ticket.priority ≡ some p = ground arith in
            let (r, round, found) = check_policy-get_elem? q now ws i w at other in
            let (r', v', all', found', up') =
              check_tenant_sla_reaches b ps now m r.0 i w p found kept open_now has' e over in
            ((r'.0, r.1 ++ r'.1), v', rw (round, all') refl, found', up')
      ]
