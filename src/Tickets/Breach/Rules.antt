-- ===== src/Tickets/Breach/Rules.antt =====
-- apps/tickets/tasks.py: the escalation rules of a policy. A rule that has run is remembered by the
-- entry that it leaves in the timeline of the ticket.
use kanzan.Prelude.{
  ℕ, zero, suc, ◌+◌, ◌*◌, Bool, true, Option, none, some, List, [], ◌∷◌, ◌++◌, ◌==◌, ltb,
  if◌then◌else◌, first, is_in, map, ◌>>=◌,
}
use kanzan.Prelude.Int.{ℤ, pos, negsuc}
use kanzan.Sla.Clock.{Zones, Tenant, TenantSettings, minute}
use kanzan.Sla.Count.{Pause, Policy, get_effective_elapsed_minutes, elapsed_business_minutes}
use kanzan.Tickets.Rows.{Priority, Ticket, Effect, rule_notice, rule_fired}
use kanzan.Tickets.Pause.{is_missing}

-- A ticket with what the check reads beside it; `fired` are the rules in its timeline.
pub record Watched : Type 0 where
  pub ticket : Ticket
  pub pauses : List Pause
  pub updated_at : ℕ
  pub is_deleted : Bool
  pub fired : List ℕ

-- The users of the tenant: the active administrators, and the active members of a role.
pub record Team : Type 0 where
  pub admins : List ℕ
  pub members : ℕ → List ℕ

pub data Trigger : Type 0 where
  response_breach resolution_breach idle_time : Trigger

pub data Action : Type 0 where
  assign notify change_priority : Action

pub record EscalationRule : Type 0 where
  pub pk : ℕ
  pub trigger : Trigger
  pub threshold_minutes : ℕ
  pub action : Action
  pub target_user : Option ℕ
  pub target_role : Option ℕ

abbrev pub take : ℕ → List ℕ → List ℕ
take zero xs = []
take (suc n) [] = []
take (suc n) (x ∷ xs) = x ∷ take n xs

-- The user that a rule assigns.
abbrev pub assigned_user : Team → EscalationRule → Option ℕ
assigned_user team r = elim r.target_user [
  | some u ↦ some u
  | none ↦ elim r.target_role [ none ↦ none | some role ↦ first (team.members role) ]
]

-- The users that a rule notifies.
abbrev pub recipients : Team → EscalationRule → Ticket → List ℕ
recipients team r t = elim r.target_user [
  | some u ↦ u ∷ []
  | none ↦ elim r.target_role [
    | some role ↦ take 10 (team.members role)
    | none ↦ elim t.assignee [ none ↦ [] | some u ↦ u ∷ [] ]
  ]
]

-- `priority_order[current_idx + 1]`, where there is one
abbrev pub raised_priority : Priority → Option Priority
raised_priority Priority.low = some Priority.medium
raised_priority Priority.medium = some Priority.high
raised_priority Priority.high = some Priority.urgent
raised_priority Priority.urgent = none

-- `ticket.save(…)`, which also stamps `updated_at`
abbrev pub saved : ℕ → Ticket → Watched → Watched
saved now t w = record w { ticket = t; updated_at = now }

abbrev pub reassigned : ℕ → Option ℕ → Watched → Watched
reassigned now none w = w
reassigned now (some u) w =
    saved now (record w.ticket { assignee = some u; assigned_at = some now }) w

abbrev pub reprioritised : ℕ → Option Priority → Watched → Watched
reprioritised now none w = w
reprioritised now (some p) w = saved now (record w.ticket { priority = p }) w

-- The ticket after the action of a rule.
abbrev pub acted : Team → ℕ → EscalationRule → Action → Watched → Watched
acted team now r assign w = reassigned now (assigned_user team r) w
acted team now r notify w = w
acted team now r change_priority w = reprioritised now (raised_priority w.ticket.priority) w

abbrev pub notices : Team → EscalationRule → Action → Ticket → List Effect
notices team r notify t = map (rule_notice r.pk) (recipients team r t)
notices team r assign t = []
notices team r change_priority t = []

abbrev pub logged : ℕ → Watched → Watched
logged rule w = record w { fired = rule ∷ w.fired }

-- `_execute_rule`
unfoldable pub execute_rule : Team → ℕ → EscalationRule → Watched → Watched × List Effect
execute_rule team now r w = (
  logged r.pk (acted team now r r.action w),
  notices team r r.action w.ticket ++ (rule_fired r.pk ∷ []),
)

-- `elapsed < target`
abbrev pub is_below : ℤ → ℕ → Bool
is_below (pos n) target = ltb n target
is_below (negsuc n) target = true

-- `(sla_minutes + threshold) if sla_minutes else threshold`
abbrev pub target_minutes : ℕ → ℕ → ℕ
target_minutes sla_minutes threshold =
    if sla_minutes == 0 then threshold else sla_minutes + threshold

module _ (z : Zones) (tenant : Tenant) where
  -- `_elapsed`
  unfoldable pub idle_elapsed : ℕ → ℕ → Policy → Option TenantSettings → Option ℤ
  idle_elapsed start_utc end_utc policy none = elapsed_business_minutes z start_utc end_utc none
  idle_elapsed start_utc end_utc policy (some s) =
      if policy.business_hours_only
      then elapsed_business_minutes z start_utc end_utc (some tenant)
      else elapsed_business_minutes z start_utc end_utc none

  -- The elapsed time that a rule compares, or nothing where it is passed over.
  abbrev pub compared : Policy → ℕ → ℕ → Watched → Trigger → Option (Option (ℤ × ℕ))
  compared policy now effective w response_breach = some (
      if is_missing w.ticket.first_responded_at
      then some (pos effective, policy.first_response_minutes)
      else none)
  compared policy now effective w resolution_breach = some (
      if is_missing w.ticket.resolved_at
      then some (pos effective, policy.resolution_minutes)
      else none)
  compared policy now effective w idle_time =
      elim (idle_elapsed w.updated_at now policy tenant.settings) [
        | none ↦ none
        | some e ↦ some (some (e, 0))
      ]

  -- One round of the loop, of a rule that has not run before.
  abbrev pub rule_round :
      Team → ℕ → EscalationRule → Option (ℤ × ℕ) → Watched → Watched × List Effect
  rule_round team now r none w = (w, [])
  rule_round team now r (some (elapsed, sla_minutes)) w =
      if is_below elapsed (target_minutes sla_minutes r.threshold_minutes * minute)
      then (w, [])
      else execute_rule team now r w

  -- One round of the loop; `past` are the rules in the timeline before the loop.
  unfoldable pub rule_step :
      Team → Policy → ℕ → ℕ → List ℕ → EscalationRule → Watched → Option (Watched × List Effect)
  rule_step team policy now effective past r w =
      if is_in r.pk past
      then some (w, [])
      else do c ← compared policy now effective w r.trigger; some (rule_round team now r c w)

  unfoldable pub rules_loop :
      Team
      → Policy
      → ℕ
      → ℕ
      → List ℕ
      → List EscalationRule
      → Watched
      → Option (Watched × List Effect)
  rules_loop team policy now effective past [] w = some (w, [])
  rules_loop team policy now effective past (r ∷ rs) w = do
    u ← rule_step team policy now effective past r w
    rest ← rules_loop team policy now effective past rs u.0
    some (rest.0, u.1 ++ rest.1)

  -- `_check_escalation_rules`, with the rules of the policy in their order
  unfoldable pub check_escalation_rules :
      Team → List EscalationRule → Policy → ℕ → Watched → Option (Watched × List Effect)
  check_escalation_rules team [] policy now w = some (w, [])
  check_escalation_rules team (r ∷ rs) policy now w = do
    effective ← get_effective_elapsed_minutes z w.ticket.created_at w.pauses policy tenant now
    rules_loop team policy now effective w.fired (r ∷ rs) w
