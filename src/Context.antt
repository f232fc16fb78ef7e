-- ===== src/Context.antt =====
-- The references of a request to earlier responses (app/services/inference_service.py).
pub mod Ancestors
