-- ===== src/Commands.antt =====
-- app/domain/dsl.py: slash commands and task targets in the text of an instant message.
pub mod Syntax
pub mod Strips
pub mod RoundTrip
pub mod Shape
