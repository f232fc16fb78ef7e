-- ===== src/Services.antt =====
-- app/services: the use cases, composed of repository statements.
pub mod Admission
pub mod Delivery
pub mod Inference
pub mod Governance
pub mod Sweeper
pub mod Shutdown
pub mod Workbench
pub mod Sessions
pub mod Inbound
