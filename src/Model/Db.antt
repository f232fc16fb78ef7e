-- ===== src/Model/Db.antt =====
-- The database as the services see it: one list of rows for each table that they write.
use human_llm_gateway.Prelude.{ℕ, String, Option, List}
use human_llm_gateway.Model.Task.{RequestTask, TaskEvent, TaskDraft, TaskInboxState}
use human_llm_gateway.Model.Account.{User, AuthSession, ApiKey}
use human_llm_gateway.Model.Connection.{ImConnection, ConnectorOutbox, InboundReceipt}

-- An audit entry, by what it records about whom (app/repositories/system.py, `AuditRepository.add`).
pub record AuditEntry : Type 0 where
  pub action : String
  pub resource_type : String
  pub resource_id : ℕ
  pub actor_user_id : Option ℕ
  pub owner_user_id : Option ℕ

pub record Db : Type 0 where
  pub tasks : List RequestTask
  pub events : List TaskEvent
  pub drafts : List TaskDraft
  pub inbox : List TaskInboxState
  pub users : List User
  pub sessions : List AuthSession
  pub api_keys : List ApiKey
  pub audits : List AuditEntry
  pub connections : List ImConnection
  pub outbox : List ConnectorOutbox
  pub receipts : List InboundReceipt
