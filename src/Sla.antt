-- ===== src/Sla.antt =====
-- apps/tickets/sla.py: the business-hours arithmetic behind the SLA deadlines.
pub mod Clock
pub mod Count
pub mod Add
pub mod Samples
mod Tests
