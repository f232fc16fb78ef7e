-- ===== src/Services/Sessions.antt =====
-- app/repositories/sessions.py and the calls of app/services/auth_service.py that end a session or
-- read its user. The digest of a token is an argument; its prefix, which is only shown, is left out.
use human_llm_gateway.Prelude.{
  ℕ, String, Bool, ◌&&◌, ◌||◌, Option, none, some, [], ◌∷◌, ◌++◌, ◌==◌, ltb, is_none, not,
  if◌then◌else◌,
}
use text.Mathlib.Text.{◌==◌ as str_eq}
use human_llm_gateway.Model.Account.{User, AuthSession}
use human_llm_gateway.Model.Db.{Db}
use human_llm_gateway.Table.Rows.{count_where, update_where, find_where}
use human_llm_gateway.Repositories.Users as Users

unfoldable pub create_session : ℕ → ℕ → String → ℕ → Db → Db
create_session id user_id token_hash expires_at db = record db {
  sessions =
      db.sessions
      ++ record {
        id = id;
        user_id = user_id;
        token_hash = token_hash;
        expires_at = expires_at;
        revoked_at = none;
      }
        ∷ [];
}

abbrev pub has_token_hash : String → AuthSession → Bool
has_token_hash token_hash s = str_eq s.token_hash token_hash

unfoldable pub get_by_token_hash : Db → String → Option AuthSession
get_by_token_hash db token_hash = find_where (has_token_hash token_hash) db.sessions

abbrev pub unrevoked_session : ℕ → AuthSession → Bool
unrevoked_session session_id s = s.id == session_id && is_none s.revoked_at

abbrev pub revoked : ℕ → AuthSession → AuthSession
revoked now s = record s { revoked_at = some now }

unfoldable pub revoke_session : ℕ → ℕ → Db → ℕ × Db
revoke_session now session_id db = (
  count_where (unrevoked_session session_id) db.sessions,
  record db { sessions = update_where (unrevoked_session session_id) (revoked now) db.sessions },
)

abbrev pub other_session : ℕ → String → AuthSession → Bool
other_session user_id token_hash s =
    s.user_id == user_id && (is_none s.revoked_at && not (str_eq s.token_hash token_hash))

unfoldable pub revoke_all_except : ℕ → ℕ → String → Db → ℕ × Db
revoke_all_except now user_id token_hash db = (
  count_where (other_session user_id token_hash) db.sessions,
  record db {
    sessions = update_where (other_session user_id token_hash) (revoked now) db.sessions;
  },
)

abbrev pub revoke_found : ℕ → Option AuthSession → Db → Db
revoke_found now none db = db
revoke_found now (some row) db = (revoke_session now row.id db).1

unfoldable pub logout : (String → String) → ℕ → String → Db → Db
logout hash_session_token now token db =
    revoke_found now (get_by_token_hash db (hash_session_token token)) db

-- The user, where it is there and active.
abbrev pub active_user : Option User → Option User
active_user none = none
active_user (some user) = if user.is_active then some user else none

abbrev pub user_of_session : ℕ → Db → Option AuthSession → Option User
user_of_session now db none = none
user_of_session now db (some row) =
    if not (is_none row.revoked_at) || ltb row.expires_at now
    then none
    else active_user (Users.get db row.user_id)

unfoldable pub get_user_by_token : (String → String) → ℕ → String → Db → Option User
get_user_by_token hash_session_token now token db =
    user_of_session now db (get_by_token_hash db (hash_session_token token))
