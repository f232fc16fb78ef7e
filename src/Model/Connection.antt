-- ===== src/Model/Connection.antt =====
-- The rows of app/repositories/models/connections.py. A result code is the value whose text the
-- column holds.
use human_llm_gateway.Prelude.{ℕ, String, Bool, Option}
use human_llm_gateway.Domain.Enums.{OutboxDeliveryState, ConnectionState, InboundResult}

-- The platforms of app/connectors; the first three deliver through the outbox.
pub data Platform : Type 0 where
  webhook http_poll websocket lark wecom_aibot wecom_ilink : Platform

pub record ImConnection : Type 0 where
  pub id : ℕ
  pub owner_user_id : ℕ
  pub platform : Platform
  pub llm_summary_enabled : Bool
  pub llm_config_id : Option ℕ
  pub desired_running : Bool
  pub state : ConnectionState
  pub bound_external_user_id : Option String
  pub binding_code_hash : Option String
  pub binding_code_expires_at : Option ℕ
  pub last_authenticated_at : Option ℕ
  pub last_health_at : Option ℕ
  pub last_error_code : Option String
  pub last_error_message : Option String
  pub retry_count : ℕ
  pub next_retry_at : Option ℕ
  pub updated_at : ℕ

pub record ConnectorOutbox : Type 0 where
  pub id : ℕ
  pub connection_id : ℕ
  pub task_id : ℕ
  pub payload_json : String
  pub delivery_state : OutboxDeliveryState
  pub attempt_count : ℕ
  pub available_at : ℕ
  pub acked_at : Option ℕ
  pub last_error_code : Option String
  pub updated_at : ℕ

pub record InboundReceipt : Type 0 where
  pub id : ℕ
  pub connection_id : ℕ
  pub external_message_id : String
  pub sender_fingerprint : String
  pub task_id : Option ℕ
  pub payload_hash : String
  pub result_code : InboundResult
  pub created_at : ℕ
