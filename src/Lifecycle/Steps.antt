-- ===== src/Lifecycle/Steps.antt =====
-- The transactions that write tasks, as a step relation: any caller may run any of them at any
-- time. A step has the clock reading and the arguments of the call, and names its result.
use human_llm_gateway.Prelude.{ℕ, ◌≡◌, String, Bool, true, Option, none, some, [], ◌∷◌}
use human_llm_gateway.Domain.Enums.{TaskState, InferenceProtocol}
use human_llm_gateway.Model.Task.{RequestTask}
use human_llm_gateway.Model.Account.{ApiKey, User}
use human_llm_gateway.Model.Db.{Db}
use human_llm_gateway.Result.{Result, ok}
use human_llm_gateway.Table.Rows.{count_where}
use human_llm_gateway.Repositories.Tasks
use human_llm_gateway.Services.Delivery.{DeliveryEnv}
use human_llm_gateway.Services.Inference
use human_llm_gateway.Services.Inference.{ParsedRequest, Fresh}
use human_llm_gateway.Services.Governance.{ImpactCounts, disable_user, enable_user}
use human_llm_gateway.Services.Sweeper.{is_overdue, sweep_target}
use human_llm_gateway.Api.TaskEnds
use human_llm_gateway.Slots.Invariant.{has_id, IsOwner}

-- The end states that a handler of app/api/inference.py asks `_finalize` for.
pub data HandlerEnd : TaskState → Type 0 where
  timed_out : HandlerEnd TaskState.timed_out
  failed : HandlerEnd TaskState.failed
  completed : HandlerEnd TaskState.completed

pub data Step (a b : Db) : Type 0 where
  -- The database gives a new row an unused key.
  create :
      (env : DeliveryEnv) (now : ℕ) (fresh : Fresh) (key : ApiKey) (o : ℕ)
      (protocol : InferenceProtocol) (parsed : ParsedRequest) (resolved : Option ℕ)
      (normalize : Option RequestTask → Result String) (task : RequestTask)
      → count_where (has_id fresh.task_id) a.tasks ≡ 0
      → Inference.create_task env now fresh key o protocol parsed resolved normalize a
        ≡ ok (task, b)
      → Step a b
  reply :
      (now task_id o version : ℕ) (payload : String)
      → b ≡ (Tasks.first_reply_wins now task_id o version payload a).1
      → Step a b
  claim_forward : (now task_id : ℕ) → b ≡ (Tasks.claim_fallback now task_id a).1 → Step a b
  accept_forward :
      (now task_id o version : ℕ) (payload : String)
      → b ≡ (Tasks.accept_forward_reply now task_id o version payload a).1
      → Step a b
  start_output : (now task_id : ℕ) → b ≡ (TaskEnds.mark_responding now task_id a).1 → Step a b
  finish :
      (now task_id : ℕ) (state : TaskState) (public_error : Option String) (done : Bool)
      → HandlerEnd state
      → TaskEnds.finalize now task_id state public_error a ≡ ok (done, b)
      → Step a b
  fail_forward :
      (now task_id : ℕ) (public_error : Option String) (done : Bool)
      → TaskEnds.fail_forward now task_id public_error a ≡ ok (done, b)
      → Step a b
  -- A caller that is gone, a stale output, a shutdown: they differ in the reason.
  cancel :
      (now task_id : ℕ) (reason : String)
      → b ≡ (Inference.cancel_caller_disconnected now task_id reason a).1
      → Step a b
  -- The sweeper read `task` when its round began; the row may have changed since, its owner not.
  sweep :
      (now : ℕ) (task : RequestTask) (done : Bool)
      → is_overdue now task ≡ true
      → IsOwner task.owner_user_id task.id a.tasks
      → Inference.finalize now task (sweep_target task) (some (task.state ∷ [])) none a
        ≡ ok (done, b)
      → Step a b
  disable :
      (now : ℕ) (u : User) (actor : ℕ) (impact : ImpactCounts)
      → disable_user now u actor a ≡ ok (impact, b)
      → Step a b
  enable : (now : ℕ) (u : User) (actor : ℕ) → b ≡ enable_user now u actor a → Step a b

pub data Reach (a : Db) : Db → Type 0 where
  here : Reach a a
  next : {b c : Db} → Reach a b → Step b c → Reach a c
