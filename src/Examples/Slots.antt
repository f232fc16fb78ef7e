-- ===== src/Examples/Slots.antt =====
-- A reply and a cancellation in a row, and what the theorems on slots and states say of them.
use human_llm_gateway.Prelude.{ℕ, ◌≤◌, ◌<◌, ◌≡◌, refl, false, none, some, arith, ◌∷◌, []}
use human_llm_gateway.Domain.Enums.{openai_chat, rate_limit_exceeded}
use human_llm_gateway.Model.Task.{RequestTask}
use human_llm_gateway.Model.Db.{Db}
use human_llm_gateway.Result.{Result, ok, raise}
use human_llm_gateway.Table.Rows.{count_where}
use human_llm_gateway.Repositories.Tasks
use human_llm_gateway.Repositories.Users
use human_llm_gateway.Services.Admission.{acquire_slot, after_acquire, refuse_slot, release_slot}
use human_llm_gateway.Services.Delivery.{DeliveryEnv, add_event}
use human_llm_gateway.Services.Inference
use human_llm_gateway.Services.Inference.{ParsedRequest, Fresh}
use human_llm_gateway.Services.Governance.{ImpactCounts, disable_user}
use human_llm_gateway.Services.Shutdown.{cancel_active_tasks}
use human_llm_gateway.Slots.Invariant.{user_has_id}
use human_llm_gateway.Slots.Revoked.{IsRevoked, disable_user-IsRevoked}
use human_llm_gateway.Slots.Answers.{acquire_slot_lem}
use human_llm_gateway.Lifecycle.Steps.{Step, reply, cancel, Reach, here, next}
use human_llm_gateway.Lifecycle.Accounts.{slots_bounded, unfinished_of}
use human_llm_gateway.Lifecycle.Moves.{Moves}
use human_llm_gateway.Lifecycle.Machine.{IsFinal, reached-IsFinal, step_conforms}
use human_llm_gateway.Lifecycle.Shutdown.{active_count, cancel_active_tasks_total}
use human_llm_gateway.Examples.Results.{value_or}
use human_llm_gateway.Examples.Rows.{waiting, owner_with, some_key, db, db-IsAccounted}

abbrev replied : Db
replied = (Tasks.first_reply_wins 10 1 7 1 "payload" db).1

abbrev disconnected : Db
disconnected = (Inference.cancel_caller_disconnected 20 1 "caller_disconnected" replied).1

reply_step : Step db replied
reply_step = reply 10 1 7 1 "payload" refl

path : Reach db disconnected
path = next (next here reply_step) (cancel 20 1 "caller_disconnected" refl)

owner_found : Users.get disconnected 7 ≡ some (record (owner_with 0) { updated_at = 20 })
unfolding Users.get Inference.cancel_caller_disconnected Inference.after_cancel Inference.release_of
    Tasks.cancel_caller_disconnected Tasks.get Tasks.first_reply_wins release_slot
    Users.atomic_release_slot add_event
owner_found = refl

waiting_found : Tasks.get db 1 ≡ some waiting
unfolding Tasks.get
waiting_found = refl

slots_bounded_example : (count_where (unfinished_of 7) disconnected.tasks ≡ 0) × (0 ≤ 10)
slots_bounded_example =
    slots_bounded 7 (record (owner_with 0) { updated_at = 20 }) db-IsAccounted path owner_found

step_conforms_example : (t' : RequestTask) × (Tasks.get replied 1 ≡ some t') × Moves waiting t'
step_conforms_example = step_conforms 1 waiting db-IsAccounted reply_step waiting_found

reached-IsFinal_example :
    (t' : RequestTask) × (Tasks.get disconnected 1 ≡ some t') × IsFinal waiting t'
reached-IsFinal_example = reached-IsFinal 1 waiting db-IsAccounted path waiting_found

one_active : active_count db < 2
one_active = omega arith

cancel_active_tasks_total_example :
    (r : ℕ × Db) × (cancel_active_tasks 2 30 "shutdown" db ≡ some r)
    × (active_count r.1 ≡ 0)
    × (r.0 ≡ 1)
cancel_active_tasks_total_example =
    cancel_active_tasks_total 2 30 "shutdown" db db-IsAccounted one_active

abbrev disabling : Result (ImpactCounts × Db)
disabling = disable_user 30 (owner_with 1) 9 db

abbrev disabled : ImpactCounts × Db
disabled =
    value_or (record { active_sessions = 0; enabled_api_keys = 0; active_tasks = 0 }, db) disabling

disabling_ok : disabling ≡ ok disabled
unfolding disable_user
disabling_ok = refl

abbrev env : DeliveryEnv
env = record { get_instance = λ i. none; envelope = λ c t. "package"; outbox_id = 1 }

abbrev fresh : Fresh
fresh = record {
  task_id = 3;
  public_id = "chat";
  response_id = "resp";
  request_id = "req";
  raw_payload = "{}";
  request_headers = none;
}

abbrev parsed : ParsedRequest
parsed = record { model = "model"; is_stream = false; previous_response_id = none }

abbrev creating : Result (RequestTask × Db)
creating =
    Inference.create_task env 40 fresh some_key 7 openai_chat parsed (some 1) (λ p. ok "{}") db

abbrev created_task : RequestTask × Db
created_task = value_or (waiting, db) creating

creating_ok : creating ≡ ok created_task
unfolding Inference.create_task acquire_slot Users.get Users.atomic_acquire_slot
creating_ok = refl

disable_user-IsRevoked_example : IsRevoked 7 disabled.1
disable_user-IsRevoked_example = disable_user-IsRevoked 30 (owner_with 1) 9 db refl disabling_ok

abbrev one_left : Db
one_left = record db { users = owner_with 9 ∷ [] }

owner_of_nine : Users.get one_left 7 ≡ some (owner_with 9)
unfolding Users.get
owner_of_nine = refl

one_owner : count_where (user_has_id 7) one_left.users ≤ 1
one_owner = omega arith

acquire_slot_lem_example :
    acquire_slot 40 some_key 7 one_left
    ≡ ok (record db { users = record (owner_with 10) { updated_at = 40 } ∷ [] })
acquire_slot_lem_example =
    acquire_slot_lem 40 7 some_key (owner_with 9) one_left one_owner owner_of_nine

full_refused :
    acquire_slot 40 some_key 7 (record db { users = owner_with 10 ∷ [] })
    ≡ raise rate_limit_exceeded 429
unfolding acquire_slot after_acquire refuse_slot Users.get Users.atomic_acquire_slot
full_refused = refl
