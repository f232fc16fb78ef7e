-- ===== src/Services/Governance.antt =====
-- app/services/user_service.py: disabling and enabling a user.
use human_llm_gateway.Prelude.{
  ℕ, String, true, false, none, some, [], ◌∷◌, ◌++◌, ◌==◌, leb, length, if◌then◌else◌,
}
use human_llm_gateway.Domain.Enums.{forbidden, conflict, is_admin}
use human_llm_gateway.Model.Account.{User}
use human_llm_gateway.Model.Db.{Db}
use human_llm_gateway.Result.{Result, ok, ◌>>◌, raise, refuse_if}
use human_llm_gateway.Repositories.Tasks.{cancel_all_for_user, count_active_for_user}
use human_llm_gateway.Repositories.Users.{
  set_active, clear_active_task_count, lock_active_admin_ids,
}
use human_llm_gateway.Repositories.Accounts.{
  revoke_all_for_user, disable_all_for_user, count_active_sessions, count_enabled_for_user,
}

-- `AuditRepository.add`
unfoldable pub audit : String → String → ℕ → ℕ → ℕ → Db → Db
audit action resource_type resource_id actor_user_id owner_user_id db = record db {
  audits =
      db.audits
      ++ record {
        action = action;
        resource_type = resource_type;
        resource_id = resource_id;
        actor_user_id = some actor_user_id;
        owner_user_id = some owner_user_id;
      }
        ∷ [];
}

pub record ImpactCounts : Type 0 where
  pub active_sessions : ℕ
  pub enabled_api_keys : ℕ
  pub active_tasks : ℕ

unfoldable pub impact_counts : ℕ → Db → ℕ → ImpactCounts
impact_counts now db user_id = record {
  active_sessions = count_active_sessions now db user_id;
  enabled_api_keys = count_enabled_for_user db user_id;
  active_tasks = count_active_for_user db user_id;
}

-- The last of the active administrators cannot be disabled.
unfoldable pub spare_admin : User → Db → Result (Unit {0})
spare_admin u db =
    if is_admin u.role
    then refuse_if (leb (length (lock_active_admin_ids db)) 1) (raise conflict 409)
    else ok tt

-- The statements of one transaction, in order.
unfoldable pub revoke_everything : ℕ → ℕ → ℕ → Db → Db
revoke_everything now user_id actor_user_id db =
    let inactive = set_active now user_id false (some actor_user_id) db in
    let revoked = revoke_all_for_user now user_id inactive in
    let keyless = disable_all_for_user now user_id revoked in
    let idle = (cancel_all_for_user now user_id "user_disabled" keyless).1 in
    let cleared = clear_active_task_count now user_id idle in
    audit "user.disabled" "user" user_id actor_user_id user_id cleared

-- `u` is the row of the user to disable.
unfoldable pub disable_user : ℕ → User → ℕ → Db → Result (ImpactCounts × Db)
unfolding spare_admin
disable_user now u actor_user_id db =
    if u.is_active
    then (do
      refuse_if (u.id == actor_user_id) (raise forbidden 403)
      spare_admin u db
      ok (impact_counts now db u.id, revoke_everything now u.id actor_user_id db))
    else ok (impact_counts now db u.id, db)

unfoldable pub enable_user : ℕ → User → ℕ → Db → Db
enable_user now u actor_user_id db =
    if u.is_active
    then db
    else audit "user.enabled" "user" u.id actor_user_id u.id (set_active now u.id true none db)
