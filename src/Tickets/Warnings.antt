-- ===== src/Tickets/Warnings.antt =====
-- apps/tickets/tasks.py: the warnings before a limit of a ticket is exceeded. Notifications that
-- are no such warnings are left out.
pub mod Once
pub mod Exact
mod Tests
use kanzan.Prelude.{
  ℕ, ◌+◌, ◌-◌, ◌*◌, ◌/◌, ◌%◌, Bool, true, false, ◌&&◌, ◌||◌, not, Option, none, some, List, [], ◌∷◌,
  ◌++◌, ◌==◌, ltb, leb, if◌then◌else◌, any,
}
use kanzan.Sla.Clock.{minute, day}
use kanzan.Tickets.Rows.{Ticket, Breach, response_breach, resolution_breach}
use kanzan.Tickets.Status.{is_closed}
use kanzan.Tickets.Pause.{is_missing}
use kanzan.Tickets.Breach.Rules.{Watched}

-- A row of `Notification` whose data has `warning`.
pub record Notice : Type 0 where
  pub ticket : ℕ
  pub recipient : ℕ
  pub breach : Breach
  pub minutes_remaining : ℕ
  pub created_at : ℕ

-- `warning_window`
abbrev pub warning_window : ℕ
warning_window = 15 * minute

-- `today_start`
abbrev pub today_start : ℕ → ℕ
today_start now = now - now % day

-- The deadline lies within the window from now.
abbrev pub approaches : ℕ → Option ℕ → Bool
approaches now none = false
approaches now (some due) = ltb now due && leb due (now + warning_window)

abbrev pub is_live : Watched → Bool
is_live w = not w.is_deleted && not (is_closed w.ticket.status)

-- The queries `approaching_response` and `approaching_resolution`.
unfoldable pub is_approaching : Breach → ℕ → Watched → Bool
is_approaching Breach.response_breach now w =
    is_live w
    && (approaches now w.ticket.sla_first_response_due
        && (not w.ticket.sla_response_breached && is_missing w.ticket.first_responded_at))
is_approaching Breach.resolution_breach now w =
    is_live w
    && (approaches now w.ticket.sla_resolution_due
        && (not w.ticket.sla_resolution_breached && is_missing w.ticket.resolved_at))

-- `str(ticket.pk) in already_warned_ids`
unfoldable pub already_warned : ℕ → List Notice → ℕ → Bool
already_warned now notices pk =
    any (λ n. leb (today_start now) n.created_at && n.ticket == pk) notices

abbrev pub due_of : Breach → Ticket → Option ℕ
due_of Breach.response_breach t = t.sla_first_response_due
due_of Breach.resolution_breach t = t.sla_resolution_due

-- `int((due - now).total_seconds() / 60)`
abbrev pub minutes_left : ℕ → Option ℕ → ℕ
minutes_left now none = 0
minutes_left now (some due) = (due - now) / minute

abbrev pub warn_assignee : Breach → ℕ → Ticket → Option ℕ → List Notice
warn_assignee b now t none = []
warn_assignee b now t (some u) =
    record {
      ticket = t.pk;
      recipient = u;
      breach = b;
      minutes_remaining = minutes_left now (due_of b t);
      created_at = now;
    }
    ∷ []

-- The body of a loop, for a row that the query finds.
unfoldable pub warn : Breach → ℕ → List Notice → Watched → List Notice
warn b now notices w =
    if already_warned now notices w.ticket.pk
    then []
    else warn_assignee b now w.ticket w.ticket.assignee

-- A loop over the rows.
unfoldable pub warn_all : Breach → ℕ → List Notice → List Watched → List Notice
warn_all b now notices [] = []
warn_all b now notices (w ∷ ws) =
    let rest = warn_all b now notices ws in
    if is_approaching b now w then warn b now notices w ++ rest else rest

-- `_check_tenant_sla_warnings`: what it sends; the set of those warned is read once, before.
unfoldable pub check_tenant_sla_warnings : ℕ → List Watched → List Notice → List Notice
check_tenant_sla_warnings now ws notices =
    warn_all response_breach now notices ws ++ warn_all resolution_breach now notices ws
