-- ===== src/Limits/Headers.antt =====
-- app/api/limits.py: what the middleware reads off a request, and its refusals. A header is a pair of
-- byte strings, a byte a number below 256.
use text.Mathlib.Text.{starts_with, ◌==◌ as str_eq}
use human_llm_gateway.Prelude.{
  ℕ, ◌+◌, ◌-◌, ◌*◌, String, Bool, true, false, ◌&&◌, ◌||◌, Option, none, some, List, [], ◌∷◌, ◌==◌,
  leb, ltb, bit, if◌then◌else◌,
}
use human_llm_gateway.Prelude.Json.{Json, null, str, obj, end, field}

-- app/core/constants.py
abbrev pub max_inference_request_bytes : ℕ
max_inference_request_bytes = 8 * 1024 * 1024

abbrev pub max_admin_request_bytes : ℕ
max_admin_request_bytes = 1 * 1024 * 1024

abbrev pub max_connector_request_bytes : ℕ
max_connector_request_bytes = 1 * 1024 * 1024

pub record Header : Type 0 where
  pub key : List ℕ
  pub value : List ℕ

-- `is_http` is whether the scope's type is "http".
pub record Scope : Type 0 where
  pub is_http : Bool
  pub path : String
  pub headers : List Header

abbrev pub same_bytes : List ℕ → List ℕ → Bool
same_bytes [] [] = true
same_bytes (x ∷ xs) (y ∷ ys) = x == y && same_bytes xs ys
same_bytes _ _ = false

-- The name `x-request-id`; a name that is not there is made up, as `fresh`.
abbrev pub request_id_name : List ℕ
request_id_name = 120 ∷ 45 ∷ 114 ∷ 101 ∷ 113 ∷ 117 ∷ 101 ∷ 115 ∷ 116 ∷ 45 ∷ 105 ∷ 100 ∷ []

-- The bytes of the ID: latin-1 decodes every byte, and encodes it back.
unfoldable pub request_id_from_scope : List ℕ → List Header → List ℕ
request_id_from_scope fresh [] = fresh
request_id_from_scope fresh (h ∷ hs) =
    let rest = request_id_from_scope fresh hs in
    if same_bytes h.key request_id_name then h.value else rest

unfoldable pub limit_for : String → Option ℕ
limit_for path =
    if starts_with path "/v1/"
    then some max_inference_request_bytes
    else if starts_with path "/api/"
    then some max_admin_request_bytes
    else if starts_with path "/connectors/" || str_eq path "/healthz"
    then some max_connector_request_bytes
    else none

-- `int` of an ASCII text: spaces, a sign, digits with single underscores between them, spaces.
abbrev pub is_ascii_space : ℕ → Bool
is_ascii_space c = (leb 9 c && leb c 13) || c == 32

abbrev pub is_digit : ℕ → Bool
is_digit c = leb 48 c && leb c 57

abbrev pub all_spaces : List ℕ → Bool
all_spaces [] = true
all_spaces (c ∷ cs) = is_ascii_space c && all_spaces cs

abbrev pub all_ascii : List ℕ → Bool
all_ascii [] = true
all_ascii (c ∷ cs) = ltb c 128 && all_ascii cs

abbrev pub count_digits : List ℕ → ℕ
count_digits [] = 0
count_digits (c ∷ cs) = bit (is_digit c) + count_digits cs

abbrev pub when {ℓ} : {A : Type ℓ} → Bool → A → Option A
when true a = some a
when false a = none

abbrev pub digits_from : ℕ → Bool → List ℕ → Option ℕ
digits_from value after_digit [] = when after_digit value
digits_from value after_digit (c ∷ cs) =
    let next = digits_from (value * 10 + (c - 48)) true cs in
    let joined = digits_from value false cs in
    if is_digit c
    then next
    else if c == 95 && after_digit
    then joined
    else when (after_digit && all_spaces (c ∷ cs)) value

-- The number, and whether it has a minus sign.
abbrev pub with_sign : Bool → Option ℕ → Option (Bool × ℕ)
with_sign negative none = none
with_sign negative (some value) = some (negative, value)

abbrev pub signed : List ℕ → Option (Bool × ℕ)
signed [] = none
signed (c ∷ cs) =
    let unsigned = with_sign false (digits_from 0 false (c ∷ cs)) in
    let plus = with_sign false (digits_from 0 false cs) in
    let minus = with_sign true (digits_from 0 false cs) in
    if c == 43 then plus else if c == 45 then minus else unsigned

abbrev pub skip_spaces : List ℕ → List ℕ
skip_spaces [] = []
skip_spaces (c ∷ cs) = let rest = skip_spaces cs in if is_ascii_space c then rest else c ∷ cs

-- `parsed if parsed >= 0 else None`
abbrev pub not_negative : Option (Bool × ℕ) → Option ℕ
not_negative none = none
not_negative (some (true, value)) = when (value == 0) value
not_negative (some (false, value)) = some value

-- `int` refuses more than 4300 digits, and `decode("ascii")` a byte that is none.
unfoldable pub parse_length : List ℕ → Option ℕ
parse_length value =
    if all_ascii value && leb (count_digits value) 4300
    then not_negative (signed (skip_spaces value))
    else none

-- The name `content-length`.
abbrev pub content_length_name : List ℕ
content_length_name =
    99 ∷ 111 ∷ 110 ∷ 116 ∷ 101 ∷ 110 ∷ 116 ∷ 45 ∷ 108 ∷ 101 ∷ 110 ∷ 103 ∷ 116 ∷ 104 ∷ []

unfoldable pub declared_content_length : List Header → Option ℕ
declared_content_length [] = none
declared_content_length (h ∷ hs) =
    let rest = declared_content_length hs in
    if same_bytes h.key content_length_name then parse_length h.value else rest

abbrev pub text_field : String → String → Json → Json
text_field key value (obj fields) = obj (field key (str value) fields)
text_field key value other = other

abbrev pub anthropic_error : Json
anthropic_error = obj (
    field "type" (str "error") (
      field "error"
        (text_field "type" "request_too_large"
          (text_field "message" "Request exceeds the maximum size." (obj end)))
        end))

abbrev pub openai_error : Json
openai_error = obj (
    field "error"
      (text_field "message" "Request exceeds the maximum size." (
        text_field "type" "invalid_request_error"
          (obj (field "param" null (field "code" (str "payload_too_large") end)))))
      end)

abbrev pub admin_error : Json
admin_error = obj (
    field "error"
      (text_field "code" "payload_too_large" (
        text_field "message" "请求体超出大小上限" (
          text_field "action" "fix_input"
            (obj (field "details" (obj end) (field "request_id" (str "") end))))))
      end)

unfoldable pub payload : String → ℕ × Json
payload path =
    if starts_with path "/v1/messages"
    then (413, anthropic_error)
    else if starts_with path "/v1/"
    then (413, openai_error)
    else (413, admin_error)
