-- ===== src/Limits.antt =====
-- app/api/limits.py: the limit on the size of a request's body.
pub mod Headers
pub mod Middleware
pub mod Buffering
pub mod Chunks
pub mod Refusals
pub mod Answers
