-- ===== src/Inbound.antt =====
-- apps/inbound_email: the processing of an email that has arrived, which becomes a new ticket, a
-- reply to one, or a row of the inbox hub. A text that is only compared is a number, and a
-- transaction is one step: what it saves on its way is seen only at its end.
pub mod Rows
pub mod Pipeline
pub mod Reply
mod Tests
