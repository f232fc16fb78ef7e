-- ===== src/Services/Shutdown.antt =====
-- app/services/task_lifecycle.py: at start and at shutdown every active task is cancelled, in
-- batches, until none is left.
use human_llm_gateway.Prelude.{
  ℕ, zero, suc, ◌+◌, String, Bool, ◌&&◌, not, Option, none, some, List, [], ◌∷◌, take, is_none, bit,
}
use human_llm_gateway.Domain.Enums.{state_in}
use human_llm_gateway.Domain.States.{terminal_states}
use human_llm_gateway.Model.Task.{RequestTask}
use human_llm_gateway.Model.Db.{Db}
use human_llm_gateway.Table.Rows.{select_where}
use human_llm_gateway.Services.Inference.{cancel_caller_disconnected}

abbrev pub is_active : RequestTask → Bool
is_active t = not (state_in t.state terminal_states) && is_none t.slot_released_at

abbrev pub batch_limit : ℕ
batch_limit = 200

abbrev pub active_batch : Db → List RequestTask
active_batch db = take batch_limit (select_where is_active db.tasks)

-- The `for` loop: a cancelled task counts one.
unfoldable pub cancel_batch : ℕ → String → List RequestTask → ℕ × Db → ℕ × Db
cancel_batch now reason [] r = r
cancel_batch now reason (t ∷ ts) (n, db) =
    let (done, db') = cancel_caller_disconnected now t.id reason db in
    cancel_batch now reason ts (n + bit done, db')

-- The `while True` loop, on fuel: `none` is a run that is not finished.
unfoldable pub cancel_rounds : ℕ → ℕ → String → ℕ × Db → Option (ℕ × Db)
unfolding cancel_batch
cancel_rounds zero now reason r = none
cancel_rounds (suc fuel) now reason r = elim (active_batch r.1) [
  | [] ↦ some r
  | t ∷ ts ↦ cancel_rounds fuel now reason (cancel_batch now reason (t ∷ ts) r)
]

unfoldable pub cancel_active_tasks : ℕ → ℕ → String → Db → Option (ℕ × Db)
cancel_active_tasks fuel now reason db = cancel_rounds fuel now reason (0, db)
