-- ===== src/Examples.antt =====
-- Concrete databases on which the theorems' hypotheses hold, and what the theorems say there.
mod Rows
mod Slots
mod Tools
mod Results
mod Edits
mod Chains
mod Packages
mod Commands
mod Messages
mod Limits
mod Throttle
mod Invitations
mod Sessions
