-- ===== src/Repositories/Users.antt =====
-- app/repositories/users.py: the slot counter of a user, activation, and the administrators.
use human_llm_gateway.Prelude.{
  ℕ, ◌+◌, ◌-◌, Bool, ◌&&◌, Option, none, some, List, ◌==◌, ltb, if◌then◌else◌, map,
}
use human_llm_gateway.Domain.Enums.{is_admin}
use human_llm_gateway.Model.Account.{User}
use human_llm_gateway.Model.Db.{Db}
use human_llm_gateway.Table.Rows.{count_where, update_where, select_where, find_where}

-- app/core/constants.py, MAX_ACTIVE_TASKS_PER_USER
abbrev pub max_active_tasks_per_user : ℕ
max_active_tasks_per_user = 10

-- `session.get(User, user_id)`
unfoldable pub get : Db → ℕ → Option User
get db user_id = find_where (λ u. u.id == user_id) db.users

abbrev pub acquire_condition : ℕ → User → Bool
acquire_condition user_id u =
    u.id == user_id && (u.is_active && ltb u.active_task_count max_active_tasks_per_user)

abbrev pub acquire_values : ℕ → User → User
acquire_values now u = record u { active_task_count = u.active_task_count + 1; updated_at = now }

unfoldable pub atomic_acquire_slot : ℕ → ℕ → Db → Bool × Db
atomic_acquire_slot now user_id db = (
  count_where (acquire_condition user_id) db.users == 1,
  record db { users = update_where (acquire_condition user_id) (acquire_values now) db.users },
)

abbrev pub release_condition : ℕ → User → Bool
release_condition user_id u = u.id == user_id && ltb 0 u.active_task_count

abbrev pub release_values : ℕ → User → User
release_values now u = record u { active_task_count = u.active_task_count - 1; updated_at = now }

unfoldable pub atomic_release_slot : ℕ → ℕ → Db → Bool × Db
atomic_release_slot now user_id db = (
  count_where (release_condition user_id) db.users == 1,
  record db { users = update_where (release_condition user_id) (release_values now) db.users },
)

abbrev pub active_values : ℕ → Bool → Option ℕ → User → User
active_values now is_active disabled_by_user_id u =
    if is_active
    then record u {
      is_active = is_active;
      disabled_at = none;
      disabled_by_user_id = none;
      updated_at = now;
    }
    else record u {
      is_active = is_active;
      disabled_at = some now;
      disabled_by_user_id = disabled_by_user_id;
      updated_at = now;
    }

unfoldable pub set_active : ℕ → ℕ → Bool → Option ℕ → Db → Db
set_active now user_id is_active disabled_by_user_id db = record db {
  users =
      update_where (λ u. u.id == user_id) (active_values now is_active disabled_by_user_id)
        db.users;
}

abbrev pub clear_values : ℕ → User → User
clear_values now u = record u { active_task_count = 0; updated_at = now }

unfoldable pub clear_active_task_count : ℕ → ℕ → Db → Db
clear_active_task_count now user_id db = record db {
  users = update_where (λ u. u.id == user_id) (clear_values now) db.users;
}

unfoldable pub lock_active_admin_ids : Db → List ℕ
lock_active_admin_ids db =
    map (λ (u : User). u.id) (select_where (λ u. is_admin u.role && u.is_active) db.users)
