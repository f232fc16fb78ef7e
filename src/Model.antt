-- ===== src/Model.antt =====
-- app/repositories/models: the tables, row by row.
pub mod Task
pub mod Account
pub mod Connection
pub mod Db
