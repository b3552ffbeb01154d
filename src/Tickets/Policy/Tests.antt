-- ===== src/Tickets/Policy/Tests.antt =====
-- An edited policy and two concrete tickets.
use kanzan.Prelude.{◌≡◌, true, false, some, List, [], ◌∷◌, map, arith}
use kanzan.Sla.Samples.{only_utc, shop_tenant}
use kanzan.Tickets.Rows.{Priority, Ticket}
use kanzan.Tickets.Samples.{fresh, closed_status}
use kanzan.Tickets.Escalate.{SlaPolicy}
use kanzan.Tickets.Policy.{propagate_sla_policy_change, propagate_tasks}
use kanzan.Tickets.Policy.Edited.{expected, propagate_sla_policy_change-expected}

abbrev policy : SlaPolicy
policy = record {
  pk = 6;
  priority = Priority.medium;
  is_active = true;
  terms = record {
    first_response_minutes = 60;
    resolution_minutes = 480;
    business_hours_only = true;
  };
}

-- The second one is closed.
abbrev two_tickets : List Ticket
two_tickets =
    record fresh { sla_policy = some 6 }
    ∷ record fresh { pk = 32; sla_policy = some 6; status = some closed_status }
    ∷ []

propagate_sla_policy_change-expected_example :
    let p = propagate_sla_policy_change only_utc shop_tenant false policy two_tickets in
    (propagate_tasks only_utc shop_tenant policy p p.tasks).tickets
    ≡ map (expected only_utc shop_tenant policy) two_tickets
propagate_sla_policy_change-expected_example =
    propagate_sla_policy_change-expected only_utc shop_tenant policy two_tickets (ground arith)
