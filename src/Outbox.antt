-- ===== src/Outbox.antt =====
-- The outbox of the connectors that poll (app/repositories/connections.py).
pub mod Acknowledged
pub mod Resets
