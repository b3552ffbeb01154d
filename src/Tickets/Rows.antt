-- ===== src/Tickets/Rows.antt =====
-- apps/tickets/models.py and services.py: the rows of tickets and statuses, what is written and sent
-- beside them, and the results of the services.
use kanzan.Prelude.{ℕ, Bool, Option, List, String}

-- A row of `TicketStatus`.
pub record Status : Type 0 where
  pub pk : ℕ
  pub slug : String
  pub is_closed : Bool
  pub is_default : Bool
  pub pauses_sla : Bool

-- `Ticket.Priority`
pub data Priority : Type 0 where
  low medium high urgent : Priority

-- The fields of `Ticket` that the services here read and write.
pub record Ticket : Type 0 where
  pub pk : ℕ
  pub priority : Priority
  pub queue : Option ℕ
  pub created_at : ℕ
  pub created_by : Option ℕ
  pub first_responded_at : Option ℕ
  pub sla_policy : Option ℕ
  pub sla_first_response_due : Option ℕ
  pub sla_response_breached : Bool
  pub sla_paused_at : Option ℕ
  pub sla_extended_at : Option ℕ
  pub escalation_count : ℕ
  pub escalated_at : Option ℕ
  pub status : Option Status
  pub status_changed_at : Option ℕ
  pub status_changed_by : Option ℕ
  pub pre_wait_status : Option Status
  pub solved_at : Option ℕ
  pub auto_close_task_id : Option ℕ
  pub resolved_at : Option ℕ
  pub closed_at : Option ℕ
  pub sla_resolution_due : Option ℕ
  pub sla_resolution_breached : Bool
  pub assignee : Option ℕ
  pub assigned_by : Option ℕ
  pub assigned_at : Option ℕ

-- The event of a timeline entry, and of the audit entry beside it.
pub data Event : Type 0 where
  assigned closed reopened status_changed escalated_manual first_response priority_changed : Event
  sla_paused sla_resumed auto_closed pipeline_stage_changed created commented deleted : Event
  tags_added macro_applied : Event

-- The limit that is exceeded.
pub data Breach : Type 0 where
  response_breach resolution_breach : Breach

pub data Effect : Type 0 where
  revoke_auto_close : ℕ → Effect
  log_activity : Event → Effect
  ticket_activity : Event → Effect
  assignment_row : ℕ → Effect
  schedule_auto_close_and_survey : Effect
  emit_ticket_closed : Effect
  emit_sla_resolution_breached : Effect
  emit_sla_first_response_breached : Effect
  log_sla_change : Option ℕ → Option ℕ → Effect
  internal_comment comment_posted : Effect
  breach_notice : Breach → ℕ → Effect
  breach_logged : Breach → Effect
  rule_notice : ℕ → ℕ → Effect
  rule_fired : ℕ → Effect
  broadcast : String → Effect
  fire_webhooks : String → Effect

pub data Error : Type 0 where
  validation_error no_closed_status not_a_member : Error

pub data Result : Type 0 where
  ok : Ticket → List Effect → Result
  raised : Error → Result
