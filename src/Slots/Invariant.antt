-- ===== src/Slots/Invariant.antt =====
-- What ties the counter of a user (app/repositories/users.py) to the task rows
-- (app/repositories/tasks.py) between two transactions.
use human_llm_gateway.Prelude.{ℕ, ◌≤◌, ◌≡◌, Bool, ◌&&◌, not, List, ◌==◌, is_none, All}
use human_llm_gateway.Domain.States.{is_terminal}
use human_llm_gateway.Model.Task.{RequestTask}
use human_llm_gateway.Model.Account.{User}
use human_llm_gateway.Model.Db.{Db}
use human_llm_gateway.Table.Rows.{count_where}
use human_llm_gateway.Repositories.Users.{max_active_tasks_per_user}

abbrev pub has_id : ℕ → RequestTask → Bool
has_id i t = t.id == i

abbrev pub user_has_id : ℕ → User → Bool
user_has_id i u = u.id == i

-- The task holds one of the slots of the user.
abbrev pub held_by : ℕ → RequestTask → Bool
held_by user_id t = t.owner_user_id == user_id && is_none t.slot_released_at

abbrev pub IsSettled : RequestTask → Type 0
IsSettled t = is_terminal t.state ≡ not (is_none t.slot_released_at)

abbrev pub IsCounted : List RequestTask → User → Type 0
IsCounted tasks u = u.active_task_count ≡ count_where (held_by u.id) tasks

abbrev pub IsCapped : User → Type 0
IsCapped u = u.active_task_count ≤ max_active_tasks_per_user

-- Primary keys are unique, a slot is released exactly in the end states, and the counter of every
-- user is the number of slots that the user's tasks hold, ten at most.
pub record SlotsAccounted (tasks : List RequestTask) (users : List User) : Type 0 where
  pub unique_tasks : (i : ℕ) → count_where (has_id i) tasks ≤ 1
  pub unique_users : (i : ℕ) → count_where (user_has_id i) users ≤ 1
  pub settled : All IsSettled tasks
  pub counted : All (IsCounted tasks) users
  pub capped : All IsCapped users

-- A row with the key `i` that does not belong to `o`: there is none where `o` is the owner that was
-- read with the task.
abbrev pub owned_elsewhere : ℕ → ℕ → RequestTask → Bool
owned_elsewhere i o t = t.id == i && not (t.owner_user_id == o)

abbrev pub IsOwner : ℕ → ℕ → List RequestTask → Type 0
IsOwner o i tasks = count_where (owned_elsewhere i o) tasks ≡ 0

abbrev pub IsAccounted : Db → Type 0
IsAccounted db = SlotsAccounted db.tasks db.users
