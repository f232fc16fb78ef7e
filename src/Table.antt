-- ===== src/Table.antt =====
-- SQL statements over lists of rows, and their laws.
pub mod Rows
pub mod Counts
pub mod Keys
pub mod Selects
