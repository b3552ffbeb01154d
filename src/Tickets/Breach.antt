-- ===== src/Tickets/Breach.antt =====
-- apps/tickets/tasks.py: the periodic check of the tickets of a tenant against their policies. An
-- error in the check of one tenant does not reach the others, which is not modelled.
pub mod Rules
pub mod Flagged
pub mod Scan
mod Tests
use kanzan.Prelude.{
  ℕ, ◌+◌, ◌*◌, Bool, true, false, ◌&&◌, ◌||◌, not, Option, none, some, List, [], ◌∷◌, ◌++◌, ◌==◌,
  ltb, if◌then◌else◌, keep, map, ◌>>=◌,
}
use kanzan.Sla.Clock.{Zones, Tenant, minute}
use kanzan.Sla.Count.{get_effective_elapsed_minutes}
use kanzan.Tickets.Rows.{
  Ticket, Effect, Breach, response_breach, resolution_breach, breach_notice, breach_logged,
  fire_webhooks,
}
use kanzan.Tickets.Status.{is_closed}
use kanzan.Tickets.Pause.{is_missing}
use kanzan.Tickets.Escalate.{SlaPolicy, same_priority}
use kanzan.Tickets.Breach.Rules.{Watched, Team, EscalationRule, take, saved, check_escalation_rules}

-- The administrators that are told beside the assignee.
abbrev pub told : Team → Option ℕ → List ℕ
told team none = take 5 team.admins
told team (some u) = u ∷ take 5 (keep (λ a. not (a == u)) team.admins)

-- `_fire_breach`
unfoldable pub fire_breach : Team → Breach → Ticket → List Effect
fire_breach team b t =
    map (breach_notice b) (told team t.assignee)
    ++ (breach_logged b ∷ fire_webhooks "sla.breached" ∷ [])

abbrev pub fire_if : Bool → Team → Breach → Ticket → List Effect
fire_if true team b t = fire_breach team b t
fire_if false team b t = []

-- The response limit is exceeded and not yet flagged.
abbrev pub is_response_late : SlaPolicy → ℕ → Ticket → Bool
is_response_late policy effective t =
    not t.sla_response_breached
    && (is_missing t.first_responded_at
        && ltb (policy.terms.first_response_minutes * minute) effective)

abbrev pub is_resolution_late : SlaPolicy → ℕ → Ticket → Bool
is_resolution_late policy effective t =
    not t.sla_resolution_breached
    && (is_missing t.resolved_at && ltb (policy.terms.resolution_minutes * minute) effective)

-- The ticket with its flags raised, which is saved if there is one to raise.
unfoldable pub flag_breaches : SlaPolicy → ℕ → ℕ → Watched → Watched
flag_breaches policy effective now w =
    let response = is_response_late policy effective w.ticket in
    let resolution = is_resolution_late policy effective w.ticket in
    if response || resolution
    then saved now
        (record w.ticket {
          sla_response_breached = w.ticket.sla_response_breached || response;
          sla_resolution_breached = w.ticket.sla_resolution_breached || resolution;
        })
        w
    else w

module _ (z : Zones) (tenant : Tenant) (team : Team) (rules : ℕ → List EscalationRule) where
  -- `_check_ticket_sla`
  unfoldable pub check_ticket_sla : SlaPolicy → ℕ → Watched → Option (Watched × List Effect)
  check_ticket_sla policy now w = do
    effective ← get_effective_elapsed_minutes z w.ticket.created_at w.pauses policy.terms tenant now
    let flagged = flag_breaches policy effective now w
    rest ← check_escalation_rules z tenant team (rules policy.pk) policy.terms now flagged
    some (
      rest.0,
      fire_if (is_response_late policy effective w.ticket) team response_breach flagged.ticket
          ++ (fire_if (is_resolution_late policy effective w.ticket) team resolution_breach
                flagged.ticket
              ++ rest.1),
    )

  -- The query for the tickets of a policy.
  abbrev pub is_watched : SlaPolicy → Watched → Bool
  is_watched policy w =
      same_priority policy.priority w.ticket.priority
      && (not w.is_deleted && not (is_closed w.ticket.status))

  unfoldable pub check_row : SlaPolicy → ℕ → Watched → Option (Watched × List Effect)
  check_row policy now w =
      if is_watched policy w then check_ticket_sla policy now w else some (w, [])

  -- The loop over the tickets.
  unfoldable pub check_tickets : SlaPolicy → ℕ → List Watched → Option (List Watched × List Effect)
  check_tickets policy now [] = some ([], [])
  check_tickets policy now (w ∷ ws) = do
    u ← check_row policy now w
    rest ← check_tickets policy now ws
    some (u.0 ∷ rest.0, u.1 ++ rest.1)

  -- Only active policies are in the query.
  unfoldable pub check_policy : SlaPolicy → ℕ → List Watched → Option (List Watched × List Effect)
  check_policy p now ws = if p.is_active then check_tickets p now ws else some (ws, [])

  -- `_check_tenant_sla`
  unfoldable pub check_tenant_sla :
      List SlaPolicy → ℕ → List Watched → Option (List Watched × List Effect)
  check_tenant_sla [] now ws = some (ws, [])
  check_tenant_sla (p ∷ ps) now ws = do
    u ← check_policy p now ws
    rest ← check_tenant_sla ps now u.0
    some (rest.0, u.1 ++ rest.1)
