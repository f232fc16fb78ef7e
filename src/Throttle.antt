-- ===== src/Throttle.antt =====
-- app/core/login_throttle.py: the limit on failed logins of a source.
pub mod Table
pub mod History
pub mod Bounds
pub mod Stamps
pub mod Counting
