-- ===== src/Domain.antt =====
-- app/domain: the enumerations and errors, and the task state machine.
pub mod Enums
pub mod States
