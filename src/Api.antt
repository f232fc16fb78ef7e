-- ===== src/Api.antt =====
-- app/api: the request handlers' own logic.
pub mod TaskEnds
