-- ===== src/Kanban.antt =====
-- apps/kanban: the boards of cards.
pub mod Board
mod Tests
