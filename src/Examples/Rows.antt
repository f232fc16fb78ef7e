-- ===== src/Examples/Rows.antt =====
-- A user with a task that waits and one that has ended, and the accounts of that database.
use human_llm_gateway.Prelude.{ℕ, refl, true, false, Option, none, some, [], ◌∷◌, arith}
use human_llm_gateway.Domain.Enums.{
  UserRole, openai_chat, TaskState, waiting_human, ReplyStrategy, DeliveryMode,
}
use human_llm_gateway.Model.Task.{RequestTask}
use human_llm_gateway.Model.Account.{User, ApiKey}
use human_llm_gateway.Model.Db.{Db}
use human_llm_gateway.Slots.Invariant.{IsAccounted}

abbrev pub some_task : ℕ → TaskState → Option ℕ → RequestTask
some_task i state released = record {
  id = i;
  public_id = "task";
  response_public_id = none;
  previous_task_id = none;
  request_id = "req";
  owner_user_id = 7;
  api_key_id = 3;
  api_key_prefix_snapshot = "sk";
  api_key_name_snapshot = "key";
  fake_model_id = some 1;
  requested_model = "model";
  protocol = openai_chat;
  raw_payload_json = "{}";
  normalized_request_json = "{}";
  request_headers_json = none;
  stream_requested = false;
  reply_strategy_snapshot = ReplyStrategy.human;
  delivery_mode_snapshot = DeliveryMode.web;
  im_connection_id_snapshot = none;
  llm_config_id_snapshot = none;
  human_deadline_at = some 500;
  state = state;
  response_payload_json = none;
  public_error_code = none;
  cancel_reason_code = none;
  slot_acquired_at = 0;
  slot_released_at = released;
  response_started_at = none;
  completed_at = released;
  version = 1;
  created_at = 0;
  updated_at = 0;
}

abbrev pub owner_with : ℕ → User
owner_with n = record {
  id = 7;
  role = UserRole.user;
  is_active = true;
  disabled_at = none;
  disabled_by_user_id = none;
  active_task_count = n;
  updated_at = 0;
}

abbrev pub some_key : ApiKey
some_key = record {
  id = 3;
  owner_user_id = 7;
  name = "key";
  key_hash = "hash";
  key_prefix = "sk";
  is_enabled = true;
  delivery_mode = DeliveryMode.web;
  im_connection_id = none;
  reply_strategy = ReplyStrategy.human;
  llm_config_id = none;
  human_timeout_seconds = 60;
  updated_at = 0;
}

abbrev pub waiting : RequestTask
waiting = some_task 1 waiting_human none

abbrev pub ended : RequestTask
ended = some_task 2 TaskState.completed (some 5)

abbrev pub db : Db
db = record {
  tasks = waiting ∷ ended ∷ [];
  events = [];
  drafts = [];
  inbox = [];
  users = owner_with 1 ∷ [];
  sessions = [];
  api_keys = some_key ∷ [];
  audits = [];
  connections = [];
  outbox = [];
  receipts = [];
}

pub db-IsAccounted : IsAccounted db
db-IsAccounted = record {
  unique_tasks = λ i. ground arith;
  unique_users = λ i. ground arith;
  settled = (refl, (refl, tt));
  counted = (refl, tt);
  capped = (omega arith, tt);
}
