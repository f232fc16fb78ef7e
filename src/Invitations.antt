-- ===== src/Invitations.antt =====
-- Invitation codes: app/services/invitation_service.py and app/repositories/invitations.py.
pub mod Codes
pub mod Uses
pub mod Consumed
