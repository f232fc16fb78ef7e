-- ===== src/Limits/Middleware.antt =====
-- app/api/limits.py, `BodySizeLimitMiddleware`. The messages that `receive` gives are a list; where it
-- ends, the middleware still waits. The bytes of a body are numbers.
use human_llm_gateway.Prelude.{
  ℕ, ◌+◌, Bool, true, false, Option, none, some, List, [], ◌∷◌, length, ltb, if◌then◌else◌,
}
use human_llm_gateway.Prelude.Json.{Json}
use human_llm_gateway.Limits.Headers.{
  Scope, request_id_from_scope, limit_for, declared_content_length, payload,
}

-- `http.disconnect`, `http.request`, and any other type
pub data MessageType : Type 0 where
  disconnect request other : MessageType

-- A message without a body has an empty one, and one without `more_body` has no more.
pub record Message : Type 0 where
  pub type_of : MessageType
  pub body : List ℕ
  pub more_body : Bool

-- How the loop over the messages ends.
pub data Reading : Type 0 where
  disconnected too_large pending : Reading
  complete : List Message → List Message → Reading

-- `buffered.append(message)`, in front of what the rest of the loop buffers.
abbrev pub buffer : Message → Reading → Reading
buffer m (complete buffered rest) = complete (m ∷ buffered) rest
buffer m other_end = other_end

-- Behind the test of the limit: the loop goes on, or ends with this message.
abbrev pub keep_request : Bool → Message → List Message → Reading → Reading
keep_request true m rest later = buffer m later
keep_request false m rest later = complete (m ∷ []) rest

-- The branch for a request's body: `later` is the rest of the loop, `total` counts this body.
abbrev pub read_request : ℕ → ℕ → Message → List Message → Reading → Reading
read_request limit total m rest later =
    if ltb limit total then too_large else keep_request m.more_body m rest later

abbrev pub read_message : MessageType → ℕ → ℕ → Message → List Message → Reading → Reading → Reading
read_message disconnect limit total m rest same later = disconnected
read_message request limit total m rest same later = read_request limit total m rest later
read_message other limit total m rest same later = buffer m same

-- The loop, with the bytes counted so far.
unfoldable pub read_body : ℕ → ℕ → List Message → Reading
read_body limit total [] = pending
read_body limit total (m ∷ rest) =
    let same = read_body limit total rest in
    let later = read_body limit (total + length m.body) rest in
    read_message m.type_of limit (total + length m.body) m rest same later

-- What becomes of a request: the application runs on the messages as they come, or on the buffered
-- ones and then those that follow; it is refused with a status, a body and a request ID; the client
-- is gone; or the middleware waits.
pub data Outcome : Type 0 where
  passed dropped waiting : Outcome
  refused : ℕ → Json → List ℕ → Outcome
  replayed : List Message → List Message → Outcome

abbrev pub refuse : Scope → List ℕ → Outcome
refuse scope fresh =
    let answer = payload scope.path in
    refused answer.0 answer.1 (request_id_from_scope fresh scope.headers)

abbrev pub after_reading : Scope → List ℕ → Reading → Outcome
after_reading scope fresh disconnected = dropped
after_reading scope fresh too_large = refuse scope fresh
after_reading scope fresh pending = waiting
after_reading scope fresh (complete buffered rest) = replayed buffered rest

abbrev pub exceeds : Option ℕ → ℕ → Bool
exceeds none limit = false
exceeds (some declared) limit = ltb limit declared

abbrev pub limited : Scope → List ℕ → List Message → Option ℕ → Outcome
limited scope fresh received none = passed
limited scope fresh received (some limit) =
    let result = after_reading scope fresh (read_body limit 0 received) in
    if exceeds (declared_content_length scope.headers) limit then refuse scope fresh else result

unfoldable pub handle : Scope → List ℕ → List Message → Outcome
handle scope fresh received =
    let result = limited scope fresh received (limit_for scope.path) in
    if scope.is_http then result else passed

-- `replay`, over the buffered messages and those that follow: a message and what is left.
abbrev pub replay : List Message → List Message → Option (Message × (List Message × List Message))
replay (m ∷ buffered) rest = some (m, (buffered, rest))
replay [] (m ∷ rest) = some (m, ([], rest))
replay [] [] = none
