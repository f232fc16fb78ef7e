-- ===== src/Workbench.antt =====
-- Drafts and replies under the calls of the workbench (app/services/task_service.py).
pub mod Replies
pub mod Final
pub mod Drafts
pub mod Saving
pub mod Edits
pub mod Locking
