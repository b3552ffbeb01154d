-- ===== src/Accounts.antt =====
-- apps/accounts: how users become members of a tenant.
pub mod Invitations
