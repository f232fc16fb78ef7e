-- ===== src/Repositories.antt =====
-- app/repositories: the statements that the services run.
pub mod Tasks
pub mod Drafts
pub mod Users
pub mod Accounts
pub mod Outbox
pub mod Keys
pub mod Receipts
