-- ===== src/Limits/Refusals.antt =====
-- The refusals of app/api/limits.py, spelled out.
use text.Mathlib.Text.{starts_with}
use human_llm_gateway.Prelude.{
  ℕ, ◌≡◌, refl, String, Bool, true, false, Option, none, some, List, [], ◌∷◌, Bool-cases, inl, inr,
  if◌then◌else◌,
}
use human_llm_gateway.Prelude.Json.{Json, null, str, obj, end, field}
use human_llm_gateway.Table.Rows.{find_where}
use human_llm_gateway.Limits.Headers.{Scope, Header, same_bytes, request_id_from_scope, payload}
use human_llm_gateway.Limits.Middleware.{refused, refuse}

-- The value of the request's ID, or a fresh one.
abbrev pub id_or : List ℕ → Option Header → List ℕ
id_or fresh none = fresh
id_or fresh (some h) = h.value

abbrev pub is_request_id : Header → Bool
is_request_id h =
    same_bytes h.key (120 ∷ 45 ∷ 114 ∷ 101 ∷ 113 ∷ 117 ∷ 101 ∷ 115 ∷ 116 ∷ 45 ∷ 105 ∷ 100 ∷ [])

-- The error of each namespace.
abbrev pub too_large_body : String → Json
too_large_body path =
    if starts_with path "/v1/messages"
    then obj (
        field "type" (str "error") (
          field "error"
            (obj (
              field "type" (str "request_too_large")
                (field "message" (str "Request exceeds the maximum size.") end)))
            end))
    else if starts_with path "/v1/"
    then obj (
        field "error"
          (obj (
            field "message" (str "Request exceeds the maximum size.") (
              field "type" (str "invalid_request_error")
                (field "param" null (field "code" (str "payload_too_large") end)))))
          end)
    else obj (
        field "error"
          (obj (
            field "code" (str "payload_too_large") (
              field "message" (str "请求体超出大小上限") (
                field "action" (str "fix_input")
                  (field "details" (obj end) (field "request_id" (str "") end))))))
          end)

request_id-first :
    (fresh : List ℕ) (headers : List Header)
    → request_id_from_scope fresh headers ≡ id_or fresh (find_where is_request_id headers)
unfolding request_id_from_scope
request_id-first fresh [] = refl
request_id-first fresh (h ∷ hs) = elim (Bool-cases (is_request_id h)) [
  | inl named ↦ rw named refl
  | inr other ↦ rw other (request_id-first fresh hs)
]

abbrev with_413 : Json → ℕ × Json
with_413 body = (413, body)

by_namespace :
    (a b : Bool) (x y z : Json)
    → (if a then with_413 x else if b then with_413 y else with_413 z)
      ≡ with_413 (if a then x else if b then y else z)
by_namespace true b x y z = refl
by_namespace false true x y z = refl
by_namespace false false x y z = refl

payload_lem : (path : String) → payload path ≡ with_413 (too_large_body path)
unfolding payload
payload_lem path = by_namespace (starts_with path "/v1/messages") (starts_with path "/v1/") _ _ _

pub refuse_lem :
    (scope : Scope) (fresh : List ℕ)
    → refuse scope fresh
      ≡ refused 413
          (too_large_body scope.path)
          (id_or fresh (find_where is_request_id scope.headers))
refuse_lem scope fresh = rw (payload_lem scope.path, request_id-first fresh scope.headers) refl
