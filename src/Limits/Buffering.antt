-- ===== src/Limits/Buffering.antt =====
-- What the loop over a request's messages buffers.
use human_llm_gateway.Prelude.{
  ℕ, ◌+◌, ◌≤◌, ◌≡◌, refl, sym, ap, Bool, true, false, List, [], ◌∷◌, ◌++◌, length, ltb, arith,
  Bool-cases, inl, inr,
}
use human_llm_gateway.Limits.Middleware.{
  MessageType, disconnect, request, other, Message, Reading, disconnected, too_large, pending,
  complete, buffer, keep_request, read_message, read_body,
}

-- The bytes of a message that count.
abbrev pub counted : MessageType → List ℕ → ℕ
counted request body = length body
counted _ body = 0

abbrev pub body_size : List Message → ℕ
body_size [] = 0
body_size (m ∷ ms) = counted m.type_of m.body + body_size ms

abbrev buffered_of : Reading → List Message
buffered_of (complete buffered rest) = buffered
buffered_of _ = []

abbrev rest_of : Reading → List Message
rest_of (complete buffered rest) = rest
rest_of _ = []

-- The buffered messages are a first part of those received, and fit.
abbrev Fits : ℕ → ℕ → List Message → List Message → List Message → Type 0
Fits limit total received b r = (received ≡ b ++ r) × (total + body_size b ≤ limit)

too_large-not-complete : {b r : List Message} → ¬ (too_large ≡ complete b r)
too_large-not-complete h = cc

buffer-complete :
    (m : Message) (result : Reading) {b r : List Message}
    → buffer m result ≡ complete b r
    → (ms : List Message) × (result ≡ complete ms r) × (b ≡ m ∷ ms)
buffer-complete m (complete x y) h = (x, ap (complete x) (ap rest_of h), sym (ap buffered_of h))
buffer-complete m disconnected h = cc
buffer-complete m too_large h = cc
buffer-complete m pending h = cc

-- A message in front of what was buffered.
Fits-cons :
    (limit total n : ℕ) (m : Message) (rest ms r : List Message) {b : List Message}
    → b ≡ m ∷ ms
    → counted m.type_of m.body ≡ n
    → Fits limit (total + n) rest ms r
    → Fits limit total (m ∷ rest) b r
Fits-cons limit total n m rest ms r same size (parts, within) =
    rw same (ap (λ xs. m ∷ xs) parts, omega (arith, within, size))

keep_request-Fits :
    (more : Bool) (limit total : ℕ) (m : Message) (rest : List Message) (later : Reading)
    {b r : List Message}
    → m.type_of ≡ request
    → total + length m.body ≤ limit
    → ((ms : List Message) → later ≡ complete ms r → Fits limit (total + length m.body) rest ms r)
    → keep_request more m rest later ≡ complete b r
    → Fits limit total (m ∷ rest) b r
keep_request-Fits true limit total m rest later {b} {r} kind within inner h =
    let (ms, ended, same) = buffer-complete m later h in
    Fits-cons limit total (length m.body) m rest ms r same (ap (λ t. counted t m.body) kind)
      (inner ms ended)
keep_request-Fits false limit total m rest later {b} {r} kind within inner h =
    Fits-cons limit total (length m.body) m rest [] r (sym (ap buffered_of h))
      (ap (λ t. counted t m.body) kind) (ap rest_of h, omega (arith, within))

read_message-Fits :
    (kind : MessageType) (limit total : ℕ) (m : Message) (rest : List Message)
    (same later : Reading) {b r : List Message}
    → m.type_of ≡ kind
    → ((ms : List Message) → same ≡ complete ms r → Fits limit total rest ms r)
    → ((ms : List Message) → later ≡ complete ms r → Fits limit (total + length m.body) rest ms r)
    → read_message kind limit (total + length m.body) m rest same later ≡ complete b r
    → Fits limit total (m ∷ rest) b r
read_message-Fits disconnect limit total m rest same later kind skip inner h = cc
read_message-Fits request limit total m rest same later {b} {r} kind skip inner h =
    elim (Bool-cases (ltb limit (total + length m.body))) [
      | inl over ↦ absurd (too_large-not-complete (rw over at h))
      | inr within ↦
          keep_request-Fits m.more_body limit total m rest later kind (ground arith) inner
            (rw within at h)
    ]
read_message-Fits other limit total m rest same later {b} {r} kind skip inner h =
    let (ms, ended, eq) = buffer-complete m same h in
    let (parts, within) = skip ms ended in
    Fits-cons limit total 0 m rest ms r eq (ap (λ t. counted t m.body) kind)
      (parts, omega (arith, within))

pub read_body-Fits :
    (limit total : ℕ) (received : List Message) {b r : List Message}
    → read_body limit total received ≡ complete b r
    → (received ≡ b ++ r) × (total + body_size b ≤ limit)
unfolding read_body
read_body-Fits limit total [] h = cc
read_body-Fits limit total (m ∷ rest) {b} {r} h =
    read_message-Fits m.type_of limit total m rest (read_body limit total rest)
      (read_body limit (total + length m.body) rest) refl
      (λ ms e. read_body-Fits limit total rest e)
      (λ ms e. read_body-Fits limit (total + length m.body) rest e) h
