-- ===== src/Repositories/Tasks.antt =====
-- app/repositories/tasks.py, the conditional UPDATEs that advance a task. Each is a condition on
-- a row, the new values of a row, and the method that runs them. One clock reading `now` serves
-- the several calls of `_now()` in a statement.
use human_llm_gateway.Prelude.{
  ℕ, ◌+◌, String, Bool, true, ◌&&◌, not, Option, none, some, List, ◌∷◌, ◌==◌, is_none,
  if◌then◌else◌,
}
use human_llm_gateway.Domain.Enums.{
  TaskState, waiting_human, forwarding_llm, response_ready, responding, same_state, state_in,
}
use human_llm_gateway.Domain.States.{terminal_states, is_terminal}
use human_llm_gateway.Model.Task.{RequestTask}
use human_llm_gateway.Model.Db.{Db}
use human_llm_gateway.Result.{Result, ok, err, value_error}
use human_llm_gateway.Table.Rows.{count_where, update_where, find_where}

-- `session.get(RequestTask, task_id)`
unfoldable pub get : Db → ℕ → Option RequestTask
get db task_id = find_where (λ t. t.id == task_id) db.tasks

-- `_terminal_values`
abbrev pub terminal_values : TaskState → ℕ → RequestTask → RequestTask
terminal_values state now t = record t {
  state = state;
  slot_released_at = some now;
  completed_at = some now;
  version = t.version + 1;
  updated_at = now;
}

-- Runs an UPDATE on the task table: whether exactly one row was changed, and the new database.
abbrev pub execute : (RequestTask → Bool) → (RequestTask → RequestTask) → Db → Bool × Db
execute condition values db = (
  count_where condition db.tasks == 1,
  record db { tasks = update_where condition values db.tasks },
)

abbrev pub reply_condition : TaskState → ℕ → ℕ → ℕ → RequestTask → Bool
reply_condition state task_id owner_user_id expected_version t =
    t.id == task_id
    && (t.owner_user_id == owner_user_id
        && (same_state t.state state && t.version == expected_version))

abbrev pub reply_values : String → ℕ → RequestTask → RequestTask
reply_values payload now t = record t {
  state = response_ready;
  response_payload_json = some payload;
  version = t.version + 1;
  updated_at = now;
}

unfoldable pub first_reply_wins : ℕ → ℕ → ℕ → ℕ → String → Db → Bool × Db
first_reply_wins now task_id owner_user_id expected_version payload =
    execute (reply_condition waiting_human task_id owner_user_id expected_version)
      (reply_values payload now)

abbrev pub claim_condition : ℕ → RequestTask → Bool
claim_condition task_id t = t.id == task_id && same_state t.state waiting_human

abbrev pub claim_values : ℕ → RequestTask → RequestTask
claim_values now t = record t { state = forwarding_llm; version = t.version + 1; updated_at = now }

unfoldable pub claim_fallback : ℕ → ℕ → Db → Bool × Db
claim_fallback now task_id = execute (claim_condition task_id) (claim_values now)

unfoldable pub accept_forward_reply : ℕ → ℕ → ℕ → ℕ → String → Db → Bool × Db
accept_forward_reply now task_id owner_user_id expected_version payload =
    execute (reply_condition forwarding_llm task_id owner_user_id expected_version)
      (reply_values payload now)

abbrev pub start_condition : ℕ → RequestTask → Bool
start_condition task_id t =
    t.id == task_id && (same_state t.state response_ready && is_none t.slot_released_at)

abbrev pub start_values : ℕ → RequestTask → RequestTask
start_values now t = record t {
  state = responding;
  response_started_at = some now;
  version = t.version + 1;
  updated_at = now;
}

unfoldable pub start_response : ℕ → ℕ → Db → Bool × Db
start_response now task_id = execute (start_condition task_id) (start_values now)

-- The condition on the source state is there only if `allowed_sources` is given.
abbrev pub source_allowed : Option (List TaskState) → TaskState → Bool
source_allowed none state = true
source_allowed (some sources) state = state_in state sources

abbrev pub release_condition : ℕ → Option (List TaskState) → RequestTask → Bool
release_condition task_id allowed_sources t =
    t.id == task_id && (is_none t.slot_released_at && source_allowed allowed_sources t.state)

unfoldable pub release_slot_to_terminal :
    ℕ → ℕ → TaskState → Option (List TaskState) → Db → Result (Bool × Db)
release_slot_to_terminal now task_id state allowed_sources db =
    if is_terminal state
    then ok (execute (release_condition task_id allowed_sources) (terminal_values state now) db)
    else err value_error

abbrev pub cancel_condition : ℕ → RequestTask → Bool
cancel_condition task_id t =
    t.id == task_id && (not (state_in t.state terminal_states) && is_none t.slot_released_at)

abbrev pub cancel_values : String → ℕ → RequestTask → RequestTask
cancel_values reason now t = record (terminal_values TaskState.cancelled now t) {
  cancel_reason_code = some reason;
}

unfoldable pub cancel_caller_disconnected : ℕ → ℕ → String → Db → Bool × Db
cancel_caller_disconnected now task_id reason =
    execute (cancel_condition task_id) (cancel_values reason now)

abbrev pub active_for_user : ℕ → RequestTask → Bool
active_for_user user_id t =
    t.owner_user_id == user_id
    && (is_none t.slot_released_at && not (state_in t.state terminal_states))

unfoldable pub count_active_for_user : Db → ℕ → ℕ
count_active_for_user db user_id = count_where (active_for_user user_id) db.tasks

-- Returns the rowcount.
unfoldable pub cancel_all_for_user : ℕ → ℕ → String → Db → ℕ × Db
cancel_all_for_user now user_id reason db = (
  count_where (active_for_user user_id) db.tasks,
  record db { tasks = update_where (active_for_user user_id) (cancel_values reason now) db.tasks },
)

-- `session.add(task)`, flushed
unfoldable pub add : RequestTask → Db → Db
add task db = record db { tasks = task ∷ db.tasks }
