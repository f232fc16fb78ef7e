-- ===== src/Api/TaskEnds.antt =====
-- app/api/inference.py: the short transactions by which a waiting request ends its task. Each
-- loads the row by its key and does nothing where there is none.
use human_llm_gateway.Prelude.{ℕ, String, Bool, false, Option, none, some, List, [], ◌∷◌}
use human_llm_gateway.Domain.Enums.{
  TaskState, waiting_human, forwarding_llm, response_ready, responding,
}
use human_llm_gateway.Model.Task.{RequestTask}
use human_llm_gateway.Model.Db.{Db}
use human_llm_gateway.Result.{Result, ok}
use human_llm_gateway.Repositories.Tasks
use human_llm_gateway.Services.Inference

-- A human timeout only ends a waiting task, and only an answered one is completed.
abbrev pub finalize_sources : TaskState → Option (List TaskState)
finalize_sources TaskState.timed_out = some (waiting_human ∷ [])
finalize_sources TaskState.completed = some (response_ready ∷ responding ∷ [])
finalize_sources _ = none

unfoldable pub finalize_loaded :
    ℕ
    → Option RequestTask
    → TaskState
    → Option (List TaskState)
    → Option String
    → Db
    → Result (Bool × Db)
finalize_loaded now none state sources public_error db = ok (false, db)
finalize_loaded now (some task) state sources public_error db =
    Inference.finalize now task state sources public_error db

-- `_finalize`
unfoldable pub finalize : ℕ → ℕ → TaskState → Option String → Db → Result (Bool × Db)
unfolding finalize_loaded
finalize now task_id state public_error db =
    finalize_loaded now (Tasks.get db task_id) state (finalize_sources state) public_error db

-- `_fail_forward`; `public_error` is there if the upstream refused a parameter.
unfoldable pub fail_forward : ℕ → ℕ → Option String → Db → Result (Bool × Db)
unfolding finalize_loaded
fail_forward now task_id public_error db =
    finalize_loaded now (Tasks.get db task_id) TaskState.failed (some (forwarding_llm ∷ []))
      public_error db

-- `_cancel_disconnected`
unfoldable pub cancel_disconnected : ℕ → ℕ → Db → Db
cancel_disconnected now task_id db =
    (Inference.cancel_caller_disconnected now task_id "caller_disconnected" db).1

unfoldable pub mark_loaded : ℕ → Option RequestTask → Db → Bool × Db
mark_loaded now none db = (false, db)
mark_loaded now (some task) db = Inference.mark_responding now task db

-- `_mark_responding`
unfoldable pub mark_responding : ℕ → ℕ → Db → Bool × Db
unfolding mark_loaded
mark_responding now task_id db = mark_loaded now (Tasks.get db task_id) db
