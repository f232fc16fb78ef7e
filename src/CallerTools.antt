-- ===== src/CallerTools.antt =====
-- app/domain/caller_tools.py and app/services/caller_tool_service.py: the tools that a request
-- declares, its policy on calling them, and the checks of the calls in a reply.
pub mod Catalog
pub mod Policy
pub mod Validation
pub mod Checks
pub mod Names
