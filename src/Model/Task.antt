-- ===== src/Model/Task.antt =====
-- The rows of app/repositories/models/tasks.py. A time is a number of microseconds; a nullable
-- column is an `Option`; a JSON column is its text.
use human_llm_gateway.Prelude.{ℕ, String, Bool, Option}
use human_llm_gateway.Domain.Enums.{
  InferenceProtocol, ReplyStrategy, DeliveryMode, TaskState, TaskEventType, ActorType, DraftSource,
  DraftState,
}

pub record RequestTask : Type 0 where
  pub id : ℕ
  pub public_id : String
  pub response_public_id : Option String
  pub previous_task_id : Option ℕ
  pub request_id : String
  pub owner_user_id : ℕ
  pub api_key_id : ℕ
  pub api_key_prefix_snapshot : String
  pub api_key_name_snapshot : String
  pub fake_model_id : Option ℕ
  pub requested_model : String
  pub protocol : InferenceProtocol
  pub raw_payload_json : String
  pub normalized_request_json : String
  pub request_headers_json : Option String
  pub stream_requested : Bool
  pub reply_strategy_snapshot : ReplyStrategy
  pub delivery_mode_snapshot : DeliveryMode
  pub im_connection_id_snapshot : Option ℕ
  pub llm_config_id_snapshot : Option ℕ
  pub human_deadline_at : Option ℕ
  pub state : TaskState
  pub response_payload_json : Option String
  pub public_error_code : Option String
  pub cancel_reason_code : Option String
  pub slot_acquired_at : ℕ
  pub slot_released_at : Option ℕ
  pub response_started_at : Option ℕ
  pub completed_at : Option ℕ
  pub version : ℕ
  pub created_at : ℕ
  pub updated_at : ℕ

pub record TaskEvent : Type 0 where
  pub task_id : ℕ
  pub event_type : TaskEventType
  pub actor_type : ActorType
  pub actor_user_id : Option ℕ
  pub created_at : ℕ

pub record TaskDraft : Type 0 where
  pub id : ℕ
  pub task_id : ℕ
  pub owner_user_id : ℕ
  pub source : DraftSource
  pub state : DraftState
  pub reasoning_text : Option String
  pub tool_calls_json : String
  pub final_text : Option String
  pub version : ℕ
  pub updated_at : ℕ

pub record TaskInboxState : Type 0 where
  pub task_id : ℕ
  pub owner_user_id : ℕ
  pub seen_at : ℕ
  pub last_seen_event_id : Option ℕ
  pub tool_call_warning_acknowledged_at : Option ℕ
