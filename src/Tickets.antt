-- ===== src/Tickets.antt =====
-- apps/tickets: the life cycle of a ticket, its clock, its assignment and its links.
pub mod Rows
pub mod Status
pub mod Assign
pub mod Links
pub mod Pause
pub mod Escalate
pub mod Breach
pub mod Policy
pub mod Warnings
pub mod Respond
pub mod AutoClose
pub mod Pipeline
pub mod Bulk
pub mod Macro
pub mod Merge
pub mod Split
pub mod Samples
mod Tests
