-- ===== src/Messages.antt =====
-- What a message from an instant messenger can change, and what its answers mean.
pub mod Frames
pub mod Audits
pub mod Owned
pub mod Foreign
pub mod Once
pub mod Refinement
pub mod Strangers
pub mod Replies
pub mod Syntaxes
pub mod Staging
