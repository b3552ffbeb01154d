-- ===== src/Hub.antt =====
-- apps/inbox_hub: inbound emails parked for triage, their life cycle, assignment and routing.
pub mod State
pub mod Store
pub mod Services
pub mod Reassign
pub mod Assignment
pub mod Park
pub mod Routing
pub mod Select
mod Tests
