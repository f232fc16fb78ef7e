-- ===== src/Examples/Sessions.antt =====
-- A user is disabled while another one is logged in and has a key.
use human_llm_gateway.Prelude.{Bool, true, String, ◌≡◌, ◌≢◌, refl, some, [], ◌∷◌}
use human_llm_gateway.Model.Account.{User, ApiKey}
use human_llm_gateway.Model.Db.{Db}
use human_llm_gateway.Result.{Result, ok}
use human_llm_gateway.Repositories.Users as Users
use human_llm_gateway.Services.Governance.{ImpactCounts, disable_user, revoke_everything, audit}
use human_llm_gateway.Repositories.Tasks.{cancel_all_for_user}
use human_llm_gateway.Repositories.Accounts.{disable_all_for_user, revoke_all_for_user}
use human_llm_gateway.Services.Sessions.{
  create_session, get_by_token_hash, get_user_by_token, logout, revoke_session,
}
use human_llm_gateway.Repositories.Keys.{authenticate, find_by_prefix, is_api_key_format}
use human_llm_gateway.Slots.Keys.{disable_user-authenticate}
use human_llm_gateway.Slots.Sessions.{disable_user-get_user_by_token}
use human_llm_gateway.Examples.Results.{value_or}
use human_llm_gateway.Examples.Rows.{owner_with, some_key, db}

abbrev other_user : User
other_user = record (owner_with 0) { id = 8 }

abbrev users_db : Db
users_db = record db { users = owner_with 1 ∷ other_user ∷ [] }

abbrev logged_in : Db
logged_in = create_session 2 8 "other" 100 (create_session 1 7 "token" 100 users_db)

abbrev digest : String → String
digest token = token

owner_logged_in : get_user_by_token digest 100 "token" logged_in ≡ some (owner_with 1)
unfolding get_user_by_token get_by_token_hash create_session Users.get
owner_logged_in = refl

other_stays :
    get_user_by_token digest 50 "other" (logout digest 40 "token" logged_in) ≡ some other_user
unfolding get_user_by_token get_by_token_hash create_session Users.get logout revoke_session
other_stays = refl

abbrev disabling : Result (ImpactCounts × Db)
disabling = disable_user 30 (owner_with 1) 9 logged_in

abbrev disabled : ImpactCounts × Db
disabled =
    value_or (record { active_sessions = 0; enabled_api_keys = 0; active_tasks = 0 }, db) disabling

disabling_ok : disabling ≡ ok disabled
unfolding disable_user
disabling_ok = refl

other_found : get_user_by_token digest 50 "other" disabled.1 ≡ some other_user
unfolding get_user_by_token get_by_token_hash create_session Users.get disable_user
    revoke_everything audit Users.clear_active_task_count cancel_all_for_user disable_all_for_user
    revoke_all_for_user Users.set_active
other_found = refl

disable_user-get_user_by_token_example : other_user.id ≢ 7
disable_user-get_user_by_token_example =
    disable_user-get_user_by_token digest 30 50 "other" (owner_with 1) 9 logged_in refl disabling_ok
      other_found

abbrev plaintext : String
plaintext = "sk-aaaaaaaaaabbbbbbbbbbccccccccccdddddddddd-_9"

abbrev other_key : ApiKey
other_key = record some_key { id = 4; owner_user_id = 8; key_prefix = "sk-aaaaa" }

abbrev keys_db : Db
keys_db = record logged_in {
  api_keys = record some_key { key_prefix = "sk-aaaaa" } ∷ other_key ∷ [];
}

abbrev matches : String → String → Bool
matches secret encoded = true

abbrev key_disabling : Result (ImpactCounts × Db)
key_disabling = disable_user 30 (owner_with 1) 9 keys_db

abbrev key_disabled : ImpactCounts × Db
key_disabled =
    value_or (record { active_sessions = 0; enabled_api_keys = 0; active_tasks = 0 }, db)
      key_disabling

key_disabling_ok : key_disabling ≡ ok key_disabled
unfolding disable_user
key_disabling_ok = refl

other_accepted : authenticate matches key_disabled.1 plaintext ≡ some other_key
unfolding authenticate find_by_prefix is_api_key_format create_session Users.get disable_user
    revoke_everything audit Users.clear_active_task_count cancel_all_for_user disable_all_for_user
    revoke_all_for_user Users.set_active
other_accepted = refl

disable_user-authenticate_example : other_key.owner_user_id ≢ 7
disable_user-authenticate_example =
    disable_user-authenticate matches 30 plaintext (owner_with 1) 9 keys_db refl key_disabling_ok
      other_accepted
