-- ===== src/Lib.antt =====
-- Kanzan, a help desk for many tenants: the rules that decide deadlines, states and assignments.
--
-- A ticket has a status of its tenant, deadlines in business time, an assignee and a history; an
-- inbound email waits in the inbox hub until an agent answers it, dismisses it or makes a ticket
-- of it; a board shows tickets as cards in columns, and moving a card changes its ticket's
-- status.
--
-- The modules and the code that they model:
-- Prelude: shared names; Boolean tests, lists and dictionaries, and signed integers over the
--   native numbers.
-- Sla (apps/tickets/sla.py, BusinessHours in apps/tickets/models.py). Sla.Clock has the
--   configuration (_get_business_config) and the calendar, Sla.Count the minute count with the
--   pauses (_count_business_minutes, get_effective_elapsed_minutes), Sla.Add the deadlines
--   (_add_business_minutes, sla_deadline_utc). Sla.Clock.Open has the measure that both are
--   compared with: the number of business instants in an interval.
-- Hub (apps/inbox_hub). Hub.State is state_machine.py, Hub.Store the rows of models.py and of
--   AgentAvailability in apps/agents/models.py, Hub.Services, Hub.Reassign and Hub.Park are
--   services.py, Hub.Assignment and Hub.Select are assignment.py, Hub.Routing is routing.py,
--   with the conditions of a rule in Hub.Routing.Conditions.
-- Tickets (apps/tickets). Tickets.Rows has the rows of models.py. Of services.py,
--   Tickets.Status has the changes of status, with closing and resuming from a wait,
--   Tickets.Assign the assignment, Tickets.Escalate the deadlines that a ticket starts with and
--   their extension, Tickets.Respond the first response, Tickets.Pipeline the stages, with the
--   signal before a save, Tickets.Merge the merge of two tickets, Tickets.Split the split of
--   comments off a ticket, Tickets.Bulk the actions on many tickets, and Tickets.Macro the
--   macros. Tickets.Pause has the signals of signals.py that stop the clock and move the
--   deadlines, and Tickets.Policy the signal of an edited policy with its task. Of tasks.py,
--   Tickets.Breach has the check of a tenant with the escalation rules, Tickets.Warnings the
--   warnings before a limit, and Tickets.AutoClose the automatic closure. Tickets.Links has the
--   links of models.py.
-- Inbound (apps/inbound_email). Inbound.Rows has the rows of models.py, the tenant of an address
--   and threading.py, Inbound.Pipeline the processing of services.py and its task in tasks.py,
--   and Inbound.Reply what a reply does to its ticket by way of Tickets.Pause and
--   Tickets.Status.
-- Billing (apps/billing). Billing has the events of webhooks.py, with the rows of models.py, and
--   Billing.Limits the checks of services.py with the views that call them.
-- Accounts (apps/accounts). Accounts.Invitations has the invitations of views.py and
--   serializers.py, which ask Billing.Limits for the limit of users.
-- Agents (apps/agents). Agents has the load of an agent and the automatic assignment of services.py,
--   over the rows that Hub.Assignment counts in, and the report of views.py.
-- Kanban (apps/kanban/services.py). Kanban.Board has move_card, which calls the ticket service,
--   and the signal of apps/tickets/signals.py that then moves the cards of the ticket;
--   Kanban.Board.View has a board as lists of cards, which the rows with their orders stand for.
--
-- The state of a service is passed along: a record of the tables it reads and writes (Hub,
-- Inbound, Accounts, Tickets.Merge), or the row with the list of what is logged, sent and
-- scheduled (Tickets, Kanban). A service that may raise returns a result, and a raise keeps no
-- change, as a transaction is rolled back. The caller's copy of a row and the row itself are
-- distinct, since some services lock the row and read it again and others do not.
--
-- Bounds and fuel: the loop of the minute count has a round for every date up to the end and
-- two more, which is enough for every pair of times; the loops of the deadline have the bounds
-- of the source, 365 * 24 rounds and 365 candidates. The search for circular links has a round
-- for every link and two more, which is enough for any links. Times are microseconds, on a
-- local clock from 0001-01-01; minutes are kept as microseconds, and the rounding of floats is
-- left out.
--
-- Not modelled: the texts of logs and notifications, updated_at except in the check of a
-- tenant, the bodies of emails, the filters on their texts (a verdict of the site), the files
-- of attachments, the permission checks of the views, and the database beyond the rows named.
-- The zones are a parameter (Zones), with the round trip of a local time as a hypothesis where
-- it is needed; the working hours of an agent are a flag of the row; the ticket that an email
-- becomes is a given key. str.lower and re.search are arguments of the conditions of a routing
-- rule, and the chain of strategies is given as a list. An error in the check of one tenant is
-- not caught for the others. A merge and a split are given the keys of their new rows; the
-- writes of the signal after the save of a merged ticket are an argument of merge_tickets, which
-- Tickets.Merge.Composed computes from Tickets.Pause; the events of a contact are left out. The
-- markers of the webhook's replay guard never expire here (in the code after 7 days). The text of
-- a macro is left out. Invoices and the other applications are not modelled.
pub mod Prelude
pub mod Sla
pub mod Hub
pub mod Tickets
pub mod Billing
pub mod Inbound
pub mod Accounts
pub mod Agents
pub mod Kanban
