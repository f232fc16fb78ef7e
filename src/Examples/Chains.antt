-- ===== src/Examples/Chains.antt =====
-- A response that continues an earlier one of the same key.
use human_llm_gateway.Prelude.{◌≡◌, ◌↔◌, refl, some, [], ◌∷◌}
use human_llm_gateway.Domain.Enums.{TaskState}
use human_llm_gateway.Model.Task.{RequestTask}
use human_llm_gateway.Model.Db.{Db}
use human_llm_gateway.Result.{ok}
use human_llm_gateway.Repositories.Tasks
use human_llm_gateway.Services.Inference.History.{resolve_previous, check_chain, usable}
use human_llm_gateway.Context.Ancestors.{
  HasAncestors, IsUsable, check_chain_iff, resolve_previous-IsUsable,
}
use human_llm_gateway.Examples.Rows.{some_task, some_key, db}

abbrev older : RequestTask
older = some_task 1 TaskState.completed (some 5)

abbrev newer : RequestTask
newer = record (some_task 2 TaskState.completed (some 9)) {
  response_public_id = some "resp_2";
  previous_task_id = some 1;
}

abbrev two : Db
two = record db { tasks = newer ∷ older ∷ [] }

resolved : resolve_previous two "resp_2" some_key ≡ ok newer
unfolding resolve_previous usable check_chain Tasks.get
resolved = refl

resolve_previous-IsUsable_example : IsUsable two "resp_2" some_key newer
resolve_previous-IsUsable_example = resolve_previous-IsUsable two "resp_2" some_key resolved

check_chain_iff_example : (check_chain 1 two (some 2) ≡ ok tt) ↔ HasAncestors two 1 (some 2)
check_chain_iff_example = check_chain_iff 1 two (some 2)
