-- ===== src/Repositories/Accounts.antt =====
-- app/repositories/sessions.py and api_keys.py: what disabling a user revokes.
use human_llm_gateway.Prelude.{ℕ, Bool, false, ◌&&◌, some, ◌==◌, ltb, is_none}
use human_llm_gateway.Model.Account.{AuthSession, ApiKey}
use human_llm_gateway.Model.Db.{Db}
use human_llm_gateway.Table.Rows.{count_where, update_where}

abbrev pub unrevoked_of : ℕ → AuthSession → Bool
unrevoked_of user_id s = s.user_id == user_id && is_none s.revoked_at

unfoldable pub revoke_all_for_user : ℕ → ℕ → Db → Db
revoke_all_for_user now user_id db = record db {
  sessions =
      update_where (unrevoked_of user_id) (λ s. record s { revoked_at = some now }) db.sessions;
}

unfoldable pub count_active_sessions : ℕ → Db → ℕ → ℕ
count_active_sessions now db user_id =
    count_where (λ s. unrevoked_of user_id s && ltb now s.expires_at) db.sessions

abbrev pub enabled_of : ℕ → ApiKey → Bool
enabled_of user_id k = k.owner_user_id == user_id && k.is_enabled

unfoldable pub disable_all_for_user : ℕ → ℕ → Db → Db
disable_all_for_user now user_id db = record db {
  api_keys =
      update_where (enabled_of user_id) (λ k. record k { is_enabled = false; updated_at = now })
        db.api_keys;
}

unfoldable pub count_enabled_for_user : Db → ℕ → ℕ
count_enabled_for_user db user_id = count_where (enabled_of user_id) db.api_keys
