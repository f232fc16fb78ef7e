-- ===== src/Services/Inference.antt =====
-- app/services/inference_service.py: creation of a task, and the transitions to an end state.
pub mod History
use human_llm_gateway.Prelude.{
  ℕ, ◌+◌, ◌*◌, String, Bool, true, false, ◌&&◌, not, Option, none, some, List, ◌==◌, is_empty,
  if◌then◌else◌,
}
use human_llm_gateway.Domain.Enums.{
  InferenceProtocol, TaskState, waiting_human, ReplyStrategy, TaskEventType, created, stream,
  ActorType, system, caller, DomainErrorCode, model_not_found, unsupported_parameter, is_systemone,
  is_human, is_llm, is_im, is_responses,
}
use human_llm_gateway.Model.Task.{RequestTask}
use human_llm_gateway.Model.Account.{ApiKey}
use human_llm_gateway.Model.Connection.{ImConnection}
use human_llm_gateway.Model.Db.{Db}
use human_llm_gateway.Result.{Result, ok, ◌>>=◌, ◌>>◌, raise, refuse_if, required}
use human_llm_gateway.Repositories.Tasks
use human_llm_gateway.Table.Rows.{update_where, find_where}
use human_llm_gateway.Services.Admission.{acquire_slot, release_slot}
use human_llm_gateway.Services.Delivery.{DeliveryEnv, deliver_task, add_event}
use History.{resolve_previous}

-- One second, in the model's unit of time.
abbrev pub second : ℕ
second = 1000000

-- What the protocol parsers hand over.
pub record ParsedRequest : Type 0 where
  pub model : String
  pub is_stream : Bool
  pub previous_response_id : Option String

-- What the call draws from outside: the primary key and the texts of the new row.
pub record Fresh : Type 0 where
  pub task_id : ℕ
  pub public_id : String
  pub response_id : String
  pub request_id : String
  pub raw_payload : String
  pub request_headers : Option String

unfoldable pub assert_protocol_strategy : InferenceProtocol → ReplyStrategy → Result (Unit {0})
assert_protocol_strategy protocol strategy =
    refuse_if (is_systemone protocol && not (is_human strategy)) (raise unsupported_parameter 400)

-- `self.models.resolve(...)` found no effective model.
unfoldable pub model_found : Option ℕ → Result ℕ
model_found none = raise model_not_found 404
model_found (some model_id) = ok model_id

previous_id : Option RequestTask → Option ℕ
previous_id none = none
previous_id (some task) = some task.id

-- Only the Responses protocol refers to an earlier response.
-- A reference that is empty counts as none.
unfoldable pub find_previous :
    Db → ApiKey → InferenceProtocol → Option String → Result (Option RequestTask)
find_previous db key protocol none = ok none
find_previous db key protocol (some response_id) =
    if is_responses protocol && not (is_empty response_id)
    then (do previous ← resolve_previous db response_id key; ok (some previous))
    else ok none

unfoldable pub new_task :
    ℕ
    → Fresh
    → ApiKey
    → ℕ
    → ℕ
    → InferenceProtocol
    → ParsedRequest
    → Option RequestTask
    → String
    → RequestTask
unfolding previous_id
new_task now fresh key owner_id model_id protocol parsed previous normalized = record {
  id = fresh.task_id;
  public_id = fresh.public_id;
  response_public_id = if is_responses protocol then some fresh.response_id else none;
  previous_task_id = previous_id previous;
  request_id = fresh.request_id;
  owner_user_id = owner_id;
  api_key_id = key.id;
  api_key_prefix_snapshot = key.key_prefix;
  api_key_name_snapshot = key.name;
  fake_model_id = some model_id;
  requested_model = parsed.model;
  protocol = protocol;
  raw_payload_json = fresh.raw_payload;
  normalized_request_json = normalized;
  request_headers_json = fresh.request_headers;
  stream_requested = parsed.is_stream;
  reply_strategy_snapshot = key.reply_strategy;
  delivery_mode_snapshot = key.delivery_mode;
  im_connection_id_snapshot = key.im_connection_id;
  llm_config_id_snapshot = key.llm_config_id;
  human_deadline_at = some (now + key.human_timeout_seconds * second);
  state = waiting_human;
  response_payload_json = none;
  public_error_code = none;
  cancel_reason_code = none;
  slot_acquired_at = now;
  slot_released_at = none;
  response_started_at = none;
  completed_at = none;
  version = 1;
  created_at = now;
  updated_at = now;
}

deliver_to : DeliveryEnv → ℕ → RequestTask → Option ImConnection → Db → Db
deliver_to env now task none db = db
deliver_to env now task (some connection) db = (deliver_task env now task connection db).1

deliver_over : DeliveryEnv → ℕ → RequestTask → Option ℕ → Db → Db
unfolding deliver_to
deliver_over env now task none db = db
deliver_over env now task (some connection_id) db =
    deliver_to env now task (find_where (λ c. c.id == connection_id) db.connections) db

unfoldable pub deliver : DeliveryEnv → ℕ → RequestTask → Db → Db
unfolding deliver_over
deliver env now task db =
    if is_llm task.reply_strategy_snapshot
    then db
    else if is_im task.delivery_mode_snapshot
    then deliver_over env now task task.im_connection_id_snapshot db
    else db

-- `resolved` is the effective model for the key, and `normalize` builds the normalized request from
-- the previous task or refuses it; both are computed from rows that this call does not change.
unfoldable pub create_task :
    DeliveryEnv
    → ℕ
    → Fresh
    → ApiKey
    → ℕ
    → InferenceProtocol
    → ParsedRequest
    → Option ℕ
    → (Option RequestTask → Result String)
    → Db
    → Result (RequestTask × Db)
unfolding assert_protocol_strategy model_found find_previous new_task
create_task env now fresh key owner_id protocol parsed resolved normalize db = do
  assert_protocol_strategy protocol key.reply_strategy
  model_id ← model_found resolved
  previous ← find_previous db key protocol parsed.previous_response_id
  normalized ← normalize previous
  acquired ← acquire_slot now key owner_id db
  let task = new_task now fresh key owner_id model_id protocol parsed previous normalized
  let stored = add_event now task.id created system none (Tasks.add task acquired)
  ok (task, deliver env now task stored)

-- `_TERMINAL_PUBLIC_ERROR_CODE`
abbrev pub terminal_public_error_code : TaskState → Option String
terminal_public_error_code TaskState.failed = some "upstream_error"
terminal_public_error_code TaskState.timed_out = some "request_timeout"
terminal_public_error_code TaskState.cancelled = some "cancelled"
terminal_public_error_code _ = none

-- The event of an end state; the other states are refused before it is looked up.
abbrev pub terminal_event : TaskState → TaskEventType
terminal_event TaskState.failed = TaskEventType.failed
terminal_event TaskState.timed_out = TaskEventType.timed_out
terminal_event TaskState.cancelled = TaskEventType.cancelled
terminal_event _ = TaskEventType.completed

-- `public_error.value if public_error else _TERMINAL_PUBLIC_ERROR_CODE.get(state)`
abbrev pub public_code_of : Option String → TaskState → Option String
public_code_of none state = terminal_public_error_code state
public_code_of (some code) state = some code

abbrev pub error_code_values : ℕ → String → RequestTask → RequestTask
error_code_values now code t = record t { public_error_code = some code; updated_at = now }

-- The attribute is set on the loaded object, and the flush writes it with the time.
unfoldable pub set_public_error : ℕ → ℕ → Option String → Db → Db
set_public_error now task_id none db = db
set_public_error now task_id (some code) db = record db {
  tasks = update_where (λ t. t.id == task_id) (error_code_values now code) db.tasks;
}

unfoldable pub after_release : ℕ → RequestTask → TaskState → Option String → Bool × Db → Bool × Db
unfolding set_public_error
after_release now task state public_error (false, db) = (false, db)
after_release now task state public_error (true, db) =
    let released = release_slot now task.owner_user_id db in
    let coded = set_public_error now task.id (public_code_of public_error state) released in
    (true, add_event now task.id (terminal_event state) system none coded)

-- `task` is the row as it was loaded, maybe before other transactions changed it.
unfoldable pub finalize :
    ℕ → RequestTask → TaskState → Option (List TaskState) → Option String → Db → Result (Bool × Db)
unfolding after_release
finalize now task state allowed_sources public_error db = do
  advanced ← Tasks.release_slot_to_terminal now task.id state allowed_sources db
  ok (after_release now task state public_error advanced)

unfoldable pub release_of : ℕ → Option RequestTask → Db → Db
release_of now none db = db
release_of now (some task) db =
    add_event now task.id TaskEventType.cancelled caller none
      (release_slot now task.owner_user_id db)

unfoldable pub after_cancel : ℕ → ℕ → Bool × Db → Bool × Db
unfolding release_of
after_cancel now task_id (false, db) = (false, db)
after_cancel now task_id (true, db) = (true, release_of now (Tasks.get db task_id) db)

unfoldable pub cancel_caller_disconnected : ℕ → ℕ → String → Db → Bool × Db
unfolding after_cancel
cancel_caller_disconnected now task_id reason db =
    after_cancel now task_id (Tasks.cancel_caller_disconnected now task_id reason db)

unfoldable pub after_start : ℕ → ℕ → Bool × Db → Bool × Db
after_start now task_id (false, db) = (false, db)
after_start now task_id (true, db) = (true, add_event now task_id stream system none db)

unfoldable pub mark_responding : ℕ → RequestTask → Db → Bool × Db
unfolding after_start
mark_responding now task db = after_start now task.id (Tasks.start_response now task.id db)
