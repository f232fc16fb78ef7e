-- ===== src/Slots.antt =====
-- The slots of a user, and what is left of a user who was disabled.
pub mod Invariant
pub mod Updates
pub mod Admission
pub mod Transitions
pub mod Creation
pub mod Disabling
pub mod Revoked
pub mod Sessions
pub mod Keys
pub mod Answers
