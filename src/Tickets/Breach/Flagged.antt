-- ===== src/Tickets/Breach/Flagged.antt =====
-- What the check of one ticket does to its flags (apps/tickets/tasks.py).
use kanzan.Prelude.{
  ℕ, ◌≡◌, refl, ◌∙◌, ◌||◌, Option, none, some, List, [], ◌∷◌, ◌++◌, if◌then◌else◌, is_in, arith,
  Bool-cases, inl, inr,
}
use kanzan.Prelude.Int.{ℤ, pos, sub_ℕ}
use kanzan.Sla.Clock.{Zones, Tenant, TenantSettings, get_business_config}
use kanzan.Sla.Count.{Policy, elapsed_business_minutes, get_effective_elapsed_minutes}
use kanzan.Sla.Count.Returns.{
  TimesOfDay, elapsed-business_time, get_effective_elapsed_minutes_returns,
}
use kanzan.Tickets.Rows.{Effect, response_breach, resolution_breach}
use kanzan.Tickets.Pause.{is_missing}
use kanzan.Tickets.Escalate.{SlaPolicy}
use kanzan.Tickets.Breach.{
  is_response_late, is_resolution_late, flag_breaches, fire_if, check_ticket_sla,
}
use kanzan.Tickets.Breach.Rules.{
  Watched, Team, EscalationRule, Trigger, execute_rule, idle_elapsed, compared, rule_round,
  rule_step, rules_loop, check_escalation_rules,
}

-- The flags are those of another ticket.
abbrev pub KeepsFlags : Watched → Watched → Type 0
KeepsFlags w w' =
    (w'.ticket.sla_response_breached ≡ w.ticket.sla_response_breached)
    × (w'.ticket.sla_resolution_breached ≡ w.ticket.sla_resolution_breached)

KeepsFlags-trans : (u v w : Watched) → KeepsFlags u v → KeepsFlags v w → KeepsFlags u w
KeepsFlags-trans u v w a b = (b.0 ∙ a.0, b.1 ∙ a.1)

execute_rule-KeepsFlags :
    (team : Team) (now : ℕ) (r : EscalationRule) (w : Watched)
    → KeepsFlags w (execute_rule team now r w).0
unfolding execute_rule
execute_rule-KeepsFlags team now r w = (ground arith, ground arith)

module _ (z : Zones) (tenant : Tenant) (valid : TimesOfDay z (get_business_config z tenant)) where
  idle_elapsed_returns :
      (a b : ℕ) (policy : Policy) (settings : Option TenantSettings)
      → (e : ℤ) × (idle_elapsed z tenant a b policy settings ≡ some e)
  unfolding idle_elapsed elapsed_business_minutes
  idle_elapsed_returns a b policy none = (sub_ℕ b a, refl)
  idle_elapsed_returns a b policy (some s) = elim (Bool-cases policy.business_hours_only) [
    | inl only ↦
        let (e, here, _) = elapsed-business_time z (get_business_config z tenant) a b valid in
        (e, rw only here)
    | inr always ↦ (sub_ℕ b a, rw always refl)
  ]

  compared_returns :
      (policy : Policy) (now effective : ℕ) (w : Watched) (t : Trigger)
      → (c : Option (ℤ × ℕ)) × (compared z tenant policy now effective w t ≡ some c)
  compared_returns policy now effective w Trigger.response_breach = (
    if is_missing w.ticket.first_responded_at
        then some (pos effective, policy.first_response_minutes)
        else none,
    refl,
  )
  compared_returns policy now effective w Trigger.resolution_breach = (
    if is_missing w.ticket.resolved_at
        then some (pos effective, policy.resolution_minutes)
        else none,
    refl,
  )
  compared_returns policy now effective w Trigger.idle_time =
      let (e, here) = idle_elapsed_returns w.updated_at now policy tenant.settings in
      (some (e, 0), rw (here, compared) refl)

  rule_round-KeepsFlags :
      (team : Team) (now : ℕ) (r : EscalationRule) (c : Option (ℤ × ℕ)) (w : Watched)
      → KeepsFlags w (rule_round z tenant team now r c w).0
  rule_round-KeepsFlags team now r none w = (refl, refl)
  rule_round-KeepsFlags team now r (some (e, m)) w =
      let k = execute_rule-KeepsFlags team now r w in (ground arith, ground arith)

  rule_step_returns :
      (team : Team) (policy : Policy) (now effective : ℕ) (past : List ℕ) (r : EscalationRule)
      (w : Watched)
      → (u : Watched × List Effect) × (rule_step z tenant team policy now effective past r w
          ≡ some u)
        × KeepsFlags w u.0
  unfolding rule_step
  rule_step_returns team policy now effective past r w = elim (Bool-cases (is_in r.pk past)) [
    | inl ran ↦ ((w, []), rw ran refl, (refl, refl))
    | inr fresh ↦
        let (c, here) = compared_returns policy now effective w r.trigger in
        (
          rule_round z tenant team now r c w,
          rw (fresh, here) refl,
          rule_round-KeepsFlags team now r c w,
        )
  ]

  rules_loop_returns :
      (team : Team) (policy : Policy) (now effective : ℕ) (past : List ℕ) (rs : List EscalationRule)
      (w : Watched)
      → (u : Watched × List Effect) × (rules_loop z tenant team policy now effective past rs w
          ≡ some u)
        × KeepsFlags w u.0
  unfolding rules_loop
  rules_loop_returns team policy now effective past [] w = ((w, []), refl, (refl, refl))
  rules_loop_returns team policy now effective past (r ∷ rs) w =
      let (u, here, kept) = rule_step_returns team policy now effective past r w in
      let (v, here', kept') = rules_loop_returns team policy now effective past rs u.0 in
      ((v.0, u.1 ++ v.1), rw (here, here') refl, KeepsFlags-trans w u.0 v.0 kept kept')

  check_escalation_rules_returns :
      (team : Team) (rs : List EscalationRule) (policy : Policy) (now : ℕ) (w : Watched)
      → (u : Watched × List Effect) × (check_escalation_rules z tenant team rs policy now w
          ≡ some u)
        × KeepsFlags w u.0
  unfolding check_escalation_rules
  check_escalation_rules_returns team [] policy now w = ((w, []), refl, (refl, refl))
  check_escalation_rules_returns team (r ∷ rs) policy now w =
      let (m, here) =
        get_effective_elapsed_minutes_returns z w.ticket.created_at w.pauses policy tenant now
          valid in
      rw here (rules_loop_returns team policy now m w.fired (r ∷ rs) w)

flag_breaches_flags :
    (policy : SlaPolicy) (m now : ℕ) (w : Watched)
    → let t = (flag_breaches policy m now w).ticket in
      (t.sla_response_breached
        ≡ (w.ticket.sla_response_breached || is_response_late policy m w.ticket))
      × (t.sla_resolution_breached
          ≡ (w.ticket.sla_resolution_breached || is_resolution_late policy m w.ticket))
unfolding flag_breaches
flag_breaches_flags policy m now w = (ground arith, ground arith)

module _ (z : Zones) (tenant : Tenant) (team : Team) (rules : ℕ → List EscalationRule)
    (valid : TimesOfDay z (get_business_config z tenant)) where
  -- A check returns, and raises exactly the flags of the limits that are exceeded.
  pub check_ticket_sla_flags :
      (policy : SlaPolicy) (now m : ℕ) (w : Watched)
      → get_effective_elapsed_minutes z w.ticket.created_at w.pauses policy.terms tenant now
        ≡ some m
      → (u : Watched × List Effect) × (check_ticket_sla z tenant team rules policy now w ≡ some u)
        × (u.0.ticket.sla_response_breached
            ≡ (w.ticket.sla_response_breached || is_response_late policy m w.ticket))
        × (u.0.ticket.sla_resolution_breached
            ≡ (w.ticket.sla_resolution_breached || is_resolution_late policy m w.ticket))
  unfolding check_ticket_sla
  check_ticket_sla_flags policy now m w e =
      let flagged = flag_breaches policy m now w in
      let (v, here, kept) =
        check_escalation_rules_returns z tenant valid team (rules policy.pk) policy.terms now
          flagged in
      let flags = flag_breaches_flags policy m now w in
      (
        (
          v.0,
          fire_if (is_response_late policy m w.ticket) team response_breach flagged.ticket
              ++ (fire_if (is_resolution_late policy m w.ticket) team resolution_breach
                    flagged.ticket
                  ++ v.1),
        ),
        rw (e, here) refl,
        kept.0 ∙ flags.0,
        kept.1 ∙ flags.1,
      )
