-- ===== src/Model/Account.antt =====
-- The rows of app/repositories/models/auth.py and keys.py that admission and governance read.
-- Display data of a user (names, e-mail, avatar, password hash) is left out.
use human_llm_gateway.Prelude.{ℕ, String, Bool, Option}
use human_llm_gateway.Domain.Enums.{UserRole, DeliveryMode, ReplyStrategy}

pub record User : Type 0 where
  pub id : ℕ
  pub role : UserRole
  pub is_active : Bool
  pub disabled_at : Option ℕ
  pub disabled_by_user_id : Option ℕ
  pub active_task_count : ℕ
  pub updated_at : ℕ

pub record AuthSession : Type 0 where
  pub id : ℕ
  pub user_id : ℕ
  pub token_hash : String
  pub expires_at : ℕ
  pub revoked_at : Option ℕ

pub record ApiKey : Type 0 where
  pub id : ℕ
  pub owner_user_id : ℕ
  pub name : String
  pub key_hash : String
  pub key_prefix : String
  pub is_enabled : Bool
  pub delivery_mode : DeliveryMode
  pub im_connection_id : Option ℕ
  pub reply_strategy : ReplyStrategy
  pub llm_config_id : Option ℕ
  pub human_timeout_seconds : ℕ
  pub updated_at : ℕ
