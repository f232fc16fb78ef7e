-- ===== src/Examples/Limits.antt =====
-- Requests that fit the limit of the administration API, and one that does not.
use human_llm_gateway.Prelude.{
  ℕ, zero, suc, ◌≤◌, ◌≡◌, refl, Bool, true, false, some, List, [], ◌∷◌, take, arith,
}
use human_llm_gateway.Limits.Headers.{
  Scope, Header, limit_for, declared_content_length, parse_length, max_admin_request_bytes,
}
use human_llm_gateway.Limits.Middleware.{
  Message, request, disconnect, read_body, replayed, handle, exceeds,
}
use human_llm_gateway.Limits.Buffering.{body_size}
use human_llm_gateway.Limits.Answers.{read_many, handle_complete, handle-replayed}

abbrev scope_with : List Header → Scope
scope_with headers = record { is_http = true; path = "/api/tasks"; headers = headers }

-- `content-length: 2`
abbrev two_bytes : Header
two_bytes = record {
  key = 99 ∷ 111 ∷ 110 ∷ 116 ∷ 101 ∷ 110 ∷ 116 ∷ 45 ∷ 108 ∷ 101 ∷ 110 ∷ 103 ∷ 116 ∷ 104 ∷ [];
  value = 50 ∷ [];
}

abbrev part : List ℕ → Bool → Message
part body more = record { type_of = request; body = body; more_body = more }

abbrev gone : Message
gone = record { type_of = disconnect; body = []; more_body = false }

abbrev scope : Scope
scope = scope_with (two_bytes ∷ [])

admin_limit : limit_for scope.path ≡ some max_admin_request_bytes
unfolding limit_for
admin_limit = refl

declared_two : declared_content_length scope.headers ≡ some 2
unfolding declared_content_length parse_length
declared_two = refl

not_exceeded : exceeds (declared_content_length scope.headers) max_admin_request_bytes ≡ false
unfolding declared_content_length parse_length
not_exceeded = refl

abbrev received : List Message
received = part (104 ∷ []) true ∷ part (105 ∷ []) false ∷ gone ∷ []

abbrev buffered : List Message
buffered = part (104 ∷ []) true ∷ part (105 ∷ []) false ∷ []

handle_complete_example : handle scope [] received ≡ replayed buffered (gone ∷ [])
handle_complete_example =
    handle_complete scope [] max_admin_request_bytes (part (104 ∷ []) true ∷ [])
      (part (105 ∷ []) false) (gone ∷ []) refl admin_limit not_exceeded (refl, tt) refl refl
      (omega arith)

handle_ok : handle scope [] received ≡ replayed buffered (gone ∷ [])
unfolding handle limit_for declared_content_length parse_length read_body
handle_ok = refl

handle-replayed_example :
    (limit : ℕ) × (limit_for scope.path ≡ some limit)
    × (body_size buffered ≤ limit)
    × ((n : ℕ) → read_many n buffered (gone ∷ []) ≡ take n received)
handle-replayed_example = handle-replayed scope [] received handle_ok

-- A body of `n` bytes.
unfoldable zeros : ℕ → List ℕ
zeros zero = []
zeros (suc n) = 0 ∷ zeros n

abbrev too_many : ℕ
too_many = 1048577
