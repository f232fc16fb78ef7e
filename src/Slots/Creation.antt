-- ===== src/Slots/Creation.antt =====
-- The accounts of slots under `create_task` of app/services/inference_service.py.
use mathlib.Core.Path.{subst}
use human_llm_gateway.Prelude.{ℕ, ◌≡◌, refl, String, Option, none, ◌∷◌, arith}
use human_llm_gateway.Domain.Enums.{InferenceProtocol, waiting_human, created, system}
use human_llm_gateway.Model.Task.{RequestTask}
use human_llm_gateway.Model.Account.{ApiKey}
use human_llm_gateway.Model.Connection.{ImConnection}
use human_llm_gateway.Model.Db.{Db}
use human_llm_gateway.Result.{Result, ok, ok-injective, >>=-eq-ok}
use human_llm_gateway.Table.Rows.{count_where}
use human_llm_gateway.Repositories.Tasks
use human_llm_gateway.Repositories.Outbox.{
  enqueue_outbox, mark_outbox_delivered, mark_outbox_failed,
}
use human_llm_gateway.Services.Admission.{acquire_slot}
use human_llm_gateway.Services.Delivery.{DeliveryEnv, deliver_task, add_event}
use human_llm_gateway.Services.Inference.{
  ParsedRequest, Fresh, assert_protocol_strategy, model_found, find_previous, new_task, deliver,
  create_task,
}
use human_llm_gateway.Slots.Invariant.{has_id, IsAccounted}
use human_llm_gateway.Slots.Admission.{acquire_slot-Acquired, acquire-add-SlotsAccounted}

-- A delivery writes to the outbox and the events, and to no task or user.
pub record SameAccounts (a b : Db) : Type 0 where
  pub same_tasks : a.tasks ≡ b.tasks
  pub same_users : a.users ≡ b.users

deliver_task-SameAccounts :
    (env : DeliveryEnv) (now : ℕ) (task : RequestTask) (connection : ImConnection) (db : Db)
    → SameAccounts (deliver_task env now task connection db).1 db
unfolding deliver_task enqueue_outbox mark_outbox_delivered mark_outbox_failed add_event
deliver_task-SameAccounts env now task connection db = ground arith

pub deliver-SameAccounts :
    (env : DeliveryEnv) (now : ℕ) (task : RequestTask) (db : Db)
    → SameAccounts (deliver env now task db) db
unfolding deliver deliver_task enqueue_outbox mark_outbox_delivered mark_outbox_failed add_event
deliver-SameAccounts env now task db = ground arith

-- What a successful call created: the row, from the state in which its slot was taken.
pub record Created (now : ℕ) (fresh : Fresh) (o : ℕ) (key : ApiKey) (a : Db) (task : RequestTask)
    (b : Db) : Type 0 where
  pub acquired : Db
  pub took_slot : acquire_slot now key o a ≡ ok acquired
  pub key_of : task.id ≡ fresh.task_id
  pub owner : task.owner_user_id ≡ o
  pub waiting : task.state ≡ waiting_human
  pub unreleased : task.slot_released_at ≡ none
  pub rows : b.tasks ≡ task ∷ acquired.tasks
  pub user_rows : b.users ≡ acquired.users

creation :
    (now : ℕ) (fresh : Fresh) (key : ApiKey) (o model_id : ℕ) (protocol : InferenceProtocol)
    (parsed : ParsedRequest) (previous : Option RequestTask) (normalized : String)
    (env : DeliveryEnv) (a acquired : Db)
    → acquire_slot now key o a ≡ ok acquired
    → let task = new_task now fresh key o model_id protocol parsed previous normalized in
      Created now fresh o key a task
        (deliver env now task (add_event now task.id created system none (Tasks.add task acquired)))
unfolding new_task add_event Tasks.add
creation now fresh key o model_id protocol parsed previous normalized env a acquired took =
    let task = new_task now fresh key o model_id protocol parsed previous normalized in
    let same =
      deliver-SameAccounts env now task
        (add_event now task.id created system none (Tasks.add task acquired)) in
    record {
      acquired = acquired;
      took_slot = took;
      key_of = refl;
      owner = refl;
      waiting = refl;
      unreleased = refl;
      rows = same.same_tasks;
      user_rows = same.same_users;
    }

module _ (env : DeliveryEnv) (now : ℕ) (fresh : Fresh) (key : ApiKey) (o : ℕ)
    (protocol : InferenceProtocol) (parsed : ParsedRequest) (resolved : Option ℕ)
    (normalize : Option RequestTask → Result String) (a : Db) where
  pub create_task-Created :
      {task : RequestTask} {b : Db}
      → create_task env now fresh key o protocol parsed resolved normalize a ≡ ok (task, b)
      → Created now fresh o key a task b
  unfolding create_task
  create_task-Created h =
      let (_, _, h0) = >>=-eq-ok (assert_protocol_strategy protocol key.reply_strategy) _ h in
      let (model_id, _, h1) = >>=-eq-ok (model_found resolved) _ h0 in
      let (previous, _, h2) =
        >>=-eq-ok (find_previous a key protocol parsed.previous_response_id) _ h1 in
      let (normalized, _, h3) = >>=-eq-ok (normalize previous) _ h2 in
      let (acquired, took, h4) = >>=-eq-ok (acquire_slot now key o a) _ h3 in
      let task = new_task now fresh key o model_id protocol parsed previous normalized in
      let stored = add_event now task.id created system none (Tasks.add task acquired) in
      subst (λ r. Created now fresh o key a r.0 r.1) (ok-injective h4)
        (creation now fresh key o model_id protocol parsed previous normalized env a acquired took)

  -- A successful create_task with an unused key on an accounted database leaves the accounts
  -- standing.
  pub create_task-IsAccounted :
      {task : RequestTask} {b : Db}
      → create_task env now fresh key o protocol parsed resolved normalize a ≡ ok (task, b)
      → count_where (has_id fresh.task_id) a.tasks ≡ 0
      → IsAccounted a
      → IsAccounted b
  create_task-IsAccounted {task} {b} h unused s =
      let c = create_task-Created h in
      rw (c.rows, c.user_rows)
        (acquire-add-SlotsAccounted now task a c.acquired
          (rw c.owner (acquire_slot-Acquired now key o a c.took_slot)) c.unreleased
          (ground (arith, c.waiting, c.unreleased)) (rw c.key_of unused) s)
