-- ===== src/Repositories/Keys.antt =====
-- app/repositories/api_keys.py: who a caller's key belongs to, and the statements on a key; and the
-- format of keys, of app/core/security.py. The comparison with a salted digest is an argument.
use Prim.Native.Char.{Char, code}
use text.Mathlib.Text.{◌==◌ as str_eq}
use human_llm_gateway.Prelude.{
  ℕ, String, Bool, true, false, ◌&&◌, ◌||◌, Option, none, some, List, [], ◌∷◌, ◌++◌, ◌==◌, leb,
  take_chars, if◌then◌else◌,
}
use human_llm_gateway.Prelude.Text.{text_length}
use human_llm_gateway.Model.Account.{User, ApiKey}
use human_llm_gateway.Model.Db.{Db}
use human_llm_gateway.Table.Rows.{update_where, select_where, delete_where, find_where}
use human_llm_gateway.Repositories.Users as Users

-- The text behind a prefix.
abbrev pub after_prefix : String → String → Option String
after_prefix String.[] s = some s
after_prefix (String.◌∷◌ c p) String.[] = none
after_prefix (String.◌∷◌ c p) (String.◌∷◌ d s) =
    let rest = after_prefix p s in if code c == code d then rest else none

-- `[A-Za-z0-9_-]`
abbrev pub is_token_char : Char → Bool
is_token_char c =
    (leb 65 (code c) && leb (code c) 90)
    || ((leb 97 (code c) && leb (code c) 122)
        || ((leb 48 (code c) && leb (code c) 57) || (code c == 95 || code c == 45)))

abbrev pub is_token_text : String → Bool
is_token_text String.[] = true
is_token_text (String.◌∷◌ c s) = is_token_char c && is_token_text s

-- (API_KEY_RANDOM_BYTES * 4 + 2) // 3 for 32 bytes
abbrev pub token_length : ℕ
token_length = 43

abbrev pub is_token : Option String → Bool
is_token none = false
is_token (some rest) = text_length rest == token_length && is_token_text rest

unfoldable pub is_api_key_format : String → Bool
is_api_key_format secret = is_token (after_prefix "sk-" secret)

abbrev pub key_has_id : ℕ → ApiKey → Bool
key_has_id key_pk k = k.id == key_pk

unfoldable pub get_key : Db → ℕ → Option ApiKey
get_key db key_pk = find_where (key_has_id key_pk) db.api_keys

abbrev pub owned_by : ℕ → Option ApiKey → Option ApiKey
owned_by owner_user_id none = none
owned_by owner_user_id (some row) = if row.owner_user_id == owner_user_id then some row else none

unfoldable pub get_owned : Db → ℕ → ℕ → Option ApiKey
get_owned db key_pk owner_user_id = owned_by owner_user_id (get_key db key_pk)

abbrev pub has_prefix : String → ApiKey → Bool
has_prefix key_prefix k = str_eq k.key_prefix key_prefix

unfoldable pub find_by_prefix : Db → String → List ApiKey
find_by_prefix db key_prefix = select_where (has_prefix key_prefix) db.api_keys

-- A key whose owner is there and active.
abbrev pub with_owner : ApiKey → Option User → Option ApiKey
with_owner row none = none
with_owner row (some owner) = if owner.is_active then some row else none

abbrev pub authenticate_among : (String → String → Bool) → Db → String → List ApiKey → Option ApiKey
authenticate_among verify_api_key db plaintext [] = none
authenticate_among verify_api_key db plaintext (row ∷ rows) =
    let rest = authenticate_among verify_api_key db plaintext rows in
    if row.is_enabled && verify_api_key plaintext row.key_hash
    then with_owner row (Users.get db row.owner_user_id)
    else rest

-- app/core/constants.py, API_KEY_PREFIX_LENGTH
abbrev pub api_key_prefix_length : ℕ
api_key_prefix_length = 8

unfoldable pub authenticate : (String → String → Bool) → Db → String → Option ApiKey
authenticate verify_api_key db plaintext =
    if is_api_key_format plaintext
    then authenticate_among verify_api_key db plaintext
        (find_by_prefix db (take_chars api_key_prefix_length plaintext))
    else none

unfoldable pub add_key : ApiKey → Db → Db
add_key key db = record db { api_keys = db.api_keys ++ key ∷ [] }

unfoldable pub set_key_enabled : ℕ → ℕ → Bool → Db → Db
set_key_enabled now key_pk enabled db = record db {
  api_keys =
      update_where (key_has_id key_pk) (λ k. record k { is_enabled = enabled; updated_at = now })
        db.api_keys;
}

unfoldable pub delete_key : ℕ → Db → Db
delete_key key_pk db = record db { api_keys = delete_where (key_has_id key_pk) db.api_keys }
