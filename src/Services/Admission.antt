-- ===== src/Services/Admission.antt =====
-- app/services/admission.py: a slot is taken before a task is created.
use human_llm_gateway.Prelude.{ℕ, Bool, true, false, not}
use human_llm_gateway.Domain.Enums.{invalid_api_key, rate_limit_exceeded}
use human_llm_gateway.Model.Account.{ApiKey}
use human_llm_gateway.Model.Db.{Db}
use human_llm_gateway.Result.{Result, ok, ◌>>=◌, ◌>>◌, raise, refuse_if, required}
use human_llm_gateway.Repositories.Users

-- What follows a failed conditional UPDATE: the owner was disabled meanwhile, or has ten tasks.
unfoldable pub refuse_slot : ℕ → Db → Result Db
refuse_slot owner_id db = do
  owner ← required (Users.get db owner_id)
  refuse_if (not owner.is_active) (raise invalid_api_key 401)
  raise rate_limit_exceeded 429

unfoldable pub after_acquire : ℕ → Bool × Db → Result Db
after_acquire owner_id (true, db) = ok db
after_acquire owner_id (false, db) = refuse_slot owner_id db

-- `session.refresh(owner)` reads the row again; the key is the row that authenticated the call.
unfoldable pub acquire_slot : ℕ → ApiKey → ℕ → Db → Result Db
unfolding after_acquire refuse_slot
acquire_slot now key owner_id db = do
  refuse_if (not key.is_enabled) (raise invalid_api_key 401)
  owner ← required (Users.get db owner_id)
  refuse_if (not owner.is_active) (raise invalid_api_key 401)
  after_acquire owner_id (Users.atomic_acquire_slot now owner_id db)

unfoldable pub release_slot : ℕ → ℕ → Db → Db
release_slot now user_id db = (Users.atomic_release_slot now user_id db).1
