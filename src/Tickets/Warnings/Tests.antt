-- ===== src/Tickets/Warnings/Tests.antt =====
-- Warnings about a concrete ticket whose response is due at 300 seconds.
use kanzan.Prelude.{◌≡◌, ◌≤◌, refl, ◌&&◌, not, false, some, List, [], ◌∷◌, any}
use kanzan.Tickets.Rows.{Breach}
use kanzan.Tickets.Samples.{fresh}
use kanzan.Tickets.Breach.Rules.{Watched}
use kanzan.Tickets.Warnings.{
  is_approaching, already_warned, warn, warn_all, check_tenant_sla_warnings,
}
use kanzan.Tickets.Warnings.Exact.{is_about, is_due, is_noticed, check_tenant_sla_warnings-is_due}
use kanzan.Tickets.Warnings.Once.{Run, runs_warning, runs_warning_once}

-- Both limits are near: the response at 300, and the resolution at 500.
abbrev row : Watched
row = record {
  ticket = record fresh { assignee = some 4 };
  pauses = [];
  updated_at = 100;
  is_deleted = false;
  fired = [];
}

check_tenant_sla_warnings-is_due_example :
    any (is_about 31 Breach.response_breach) (check_tenant_sla_warnings 200 (row ∷ []) [])
    ≡ (any (is_due 31 Breach.response_breach 200) (row ∷ []) && not (any (is_noticed 31 200) []))
check_tenant_sla_warnings-is_due_example =
    check_tenant_sla_warnings-is_due Breach.response_breach 200 31 (row ∷ []) []

-- Two runs, of which the first warns.
abbrev two_runs : List Run
two_runs = record { now = 200; rows = row ∷ [] } ∷ record { now = 250; rows = row ∷ [] } ∷ []

first_warns : runs_warning 31 two_runs [] ≡ 1
unfolding runs_warning check_tenant_sla_warnings warn_all warn already_warned is_approaching
first_warns = refl

runs_warning_once_example : runs_warning 31 two_runs [] ≤ 1
runs_warning_once_example = runs_warning_once 0 31 two_runs [] (refl, (refl, tt))
