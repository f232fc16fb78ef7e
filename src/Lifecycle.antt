-- ===== src/Lifecycle.antt =====
-- The life of a task over all interleavings of the transactions that write it.
pub mod Steps
pub mod Accounts
pub mod Moves
pub mod Conformance
pub mod Machine
pub mod Shutdown
