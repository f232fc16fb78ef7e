-- ===== src/Services/Inference/History.antt =====
-- app/services/inference_service.py, `_resolve_previous` (reference to an earlier response, whose
-- chain of ancestors is bounded) and `_task_public_id`.
use human_llm_gateway.Prelude.{
  ℕ, zero, suc, String, Bool, true, false, ◌&&◌, Option, none, some, List, [], ◌∷◌, ◌==◌,
  if◌then◌else◌,
}
use text.Mathlib.Text.{◌==◌ as str_eq}
use human_llm_gateway.Domain.Enums.{TaskState, same_state, invalid_request, context_length_exceeded}
use human_llm_gateway.Model.Task.{RequestTask}
use human_llm_gateway.Model.Account.{ApiKey}
use human_llm_gateway.Model.Db.{Db}
use human_llm_gateway.Result.{Result, ok, ◌>>=◌, ◌>>◌, raise, raise_public}
use human_llm_gateway.Table.Rows.{find_where}
use human_llm_gateway.Repositories.Tasks

-- app/core/constants.py, MAX_CONTEXT_CHAIN_DEPTH
abbrev pub max_context_chain_depth : ℕ
max_context_chain_depth = 20

abbrev pub is_response : String → Option String → Bool
is_response wanted none = false
is_response wanted (some id) = str_eq id wanted

unfoldable pub invalid_previous {ℓ} : {A : Type ℓ} → Result A
invalid_previous = raise_public invalid_request 400 "invalid_previous_response_id"

unfoldable pub ancestor : Option RequestTask → Result RequestTask
unfolding invalid_previous
ancestor none = invalid_previous
ancestor (some task) = ok task

-- The `while` loop, with the number of steps up that are left before the limit.
unfoldable pub check_chain : ℕ → Db → Option ℕ → Result (Unit {0})
unfolding ancestor
check_chain budget db none = ok tt
check_chain zero db (some id) = raise context_length_exceeded 400
check_chain (suc budget) db (some id) =
    ancestor (Tasks.get db id) >>= λ task. check_chain budget db task.previous_task_id

unfoldable pub usable : ApiKey → Option RequestTask → Result RequestTask
unfolding invalid_previous
usable key none = invalid_previous
usable key (some task) =
    if task.api_key_id == key.id && same_state task.state TaskState.completed
    then ok task
    else invalid_previous

unfoldable pub resolve_previous : Db → String → ApiKey → Result RequestTask
unfolding usable check_chain ancestor
resolve_previous db previous_response_id key = do
  task ←
      usable key (find_where (λ t. is_response previous_response_id t.response_public_id) db.tasks)
  check_chain max_context_chain_depth db task.previous_task_id
  ok task

abbrev pub is_occupied : Db → String → Bool
is_occupied db candidate =
    elim (find_where (λ (t : RequestTask). str_eq t.public_id candidate) db.tasks) [
      | none ↦ false
      | some _ ↦ true
    ]

-- The candidates are the short random numbers that are tried, in order; then the long one.
unfoldable pub task_public_id : Db → List String → String → String
task_public_id db [] long = long
task_public_id db (candidate ∷ rest) long =
    let next = task_public_id db rest long in if is_occupied db candidate then next else candidate
