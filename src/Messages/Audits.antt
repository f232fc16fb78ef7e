-- ===== src/Messages/Audits.antt =====
-- The audit entry that the end of the handler may add (app/services/connection_service.py).
use human_llm_gateway.Prelude.{ℕ, Option, none, some, ◌==◌, if-holds}
use human_llm_gateway.Domain.Enums.{
  InboundResult, accepted, duplicate, late, unbound, unhandled, bound,
}
use human_llm_gateway.Model.Task.{RequestTask}
use human_llm_gateway.Model.Db.{Db}
use human_llm_gateway.Repositories.Tasks
use human_llm_gateway.Services.Inbound.{add_audit}
use human_llm_gateway.Services.Inbound.Handler.{reply_audit, audit_found, audit_accepted}

module _ {ℓ} (P : Db → Type ℓ) (a : Db) (plain : P a)
    (audited : (task : RequestTask) → P (add_audit (reply_audit task) a)) where
  audit_found-holds : (found : Option RequestTask) → P (audit_found found a)
  audit_found-holds none = plain
  audit_found-holds (some task) = audited task

  pub audit_accepted-holds :
      (result : InboundResult) (task_id : Option ℕ) → P (audit_accepted result task_id a)
  audit_accepted-holds accepted (some task_id) =
      if-holds P (task_id == 0) plain (audit_found-holds (Tasks.get a task_id))
  audit_accepted-holds accepted none = plain
  audit_accepted-holds duplicate task_id = plain
  audit_accepted-holds late task_id = plain
  audit_accepted-holds unbound task_id = plain
  audit_accepted-holds unhandled task_id = plain
  audit_accepted-holds bound task_id = plain
