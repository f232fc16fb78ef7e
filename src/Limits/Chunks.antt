-- ===== src/Limits/Chunks.antt =====
-- Where the loop over a request's messages ends, for a body that arrives in parts.
use human_llm_gateway.Prelude.{
  ℕ, suc, ◌+◌, ◌≤◌, ◌≡◌, refl, ap, ◌∙◌, Bool, true, false, List, [], ◌∷◌, ◌++◌, length, ltb, arith,
  Bool-cases, inl, inr,
}
use human_llm_gateway.Limits.Middleware.{
  MessageType, disconnect, request, other, Message, Reading, too_large, complete, buffer,
  keep_request, read_message, read_body,
}
use human_llm_gateway.Limits.Buffering.{counted, body_size}

-- A message after which the loop goes on.
abbrev open_type : MessageType → Bool → Bool
open_type disconnect more = false
open_type request more = more
open_type other more = true

abbrev pub AllOpen : List Message → Type 0
AllOpen [] = Unit
AllOpen (m ∷ ms) = (open_type m.type_of m.more_body ≡ true) × AllOpen ms

-- A part of the body that is over the limit, or is followed by one that is.
turn-too_large :
    (kind : MessageType) (limit total size : ℕ) (m : Message) (rest : List Message)
    (same later : Reading)
    → open_type kind m.more_body ≡ true
    → suc limit ≤ total + (counted kind m.body + size)
    → (suc limit ≤ total + size → same ≡ too_large)
    → (suc limit ≤ total + length m.body + size → total + length m.body ≤ limit → later ≡ too_large)
    → read_message kind limit (total + length m.body) m rest same later ≡ too_large
turn-too_large disconnect limit total size m rest same later goes_on over skip inner = cc
turn-too_large other limit total size m rest same later goes_on over skip inner =
    ap (buffer m) (skip (omega (arith, over)))
turn-too_large request limit total size m rest same later goes_on over skip inner =
    elim (Bool-cases (ltb limit (total + length m.body))) [
      | inl here ↦ rw here refl
      | inr within ↦ rw within (
          ap (λ k. keep_request k m rest later) goes_on
          ∙ ap (buffer m) (inner (omega (arith, over)) (ground arith)))
    ]

pub read_body-too_large :
    (limit total : ℕ) (chunks rest : List Message)
    → AllOpen chunks
    → total ≤ limit
    → suc limit ≤ total + body_size chunks
    → read_body limit total (chunks ++ rest) ≡ too_large
unfolding read_body
read_body-too_large limit total [] rest parts within over = absurd (omega (arith, within, over))
read_body-too_large limit total (m ∷ chunks) rest parts within over =
    turn-too_large m.type_of limit total (body_size chunks) m (chunks ++ rest)
      (read_body limit total (chunks ++ rest))
      (read_body limit (total + length m.body) (chunks ++ rest)) parts.0 over
      (λ more. read_body-too_large limit total chunks rest parts.1 within more)
      (λ more fits. read_body-too_large limit (total + length m.body) chunks rest parts.1 fits more)

-- A part of a body that fits.
turn-complete :
    (kind : MessageType) (limit total size : ℕ) (m : Message) (rest b r : List Message)
    (same later : Reading)
    → open_type kind m.more_body ≡ true
    → total + (counted kind m.body + size) ≤ limit
    → (total + size ≤ limit → same ≡ complete b r)
    → (total + length m.body + size ≤ limit → later ≡ complete b r)
    → read_message kind limit (total + length m.body) m rest same later ≡ complete (m ∷ b) r
turn-complete disconnect limit total size m rest b r same later goes_on fits skip inner = cc
turn-complete other limit total size m rest b r same later goes_on fits skip inner =
    ap (buffer m) (skip (omega (arith, fits)))
turn-complete request limit total size m rest b r same later goes_on fits skip inner =
    let within : ltb limit (total + length m.body) ≡ false = ground (arith, fits) in
    rw within
      (ap (λ k. keep_request k m rest later) goes_on ∙ ap (buffer m) (inner (omega (arith, fits))))

last-complete :
    (kind : MessageType) (limit total : ℕ) (m : Message) (rest : List Message)
    (same later : Reading)
    → kind ≡ request
    → m.more_body ≡ false
    → total + counted kind m.body ≤ limit
    → read_message kind limit (total + length m.body) m rest same later ≡ complete (m ∷ []) rest
last-complete request limit total m rest same later k last fits =
    let within : ltb limit (total + length m.body) ≡ false = ground (arith, fits) in
    rw within (ap (λ k. keep_request k m rest later) last)
last-complete disconnect limit total m rest same later k last fits = cc
last-complete other limit total m rest same later k last fits = cc

pub read_body-complete :
    (limit total : ℕ) (chunks : List Message) (m : Message) (rest : List Message)
    → AllOpen chunks
    → m.type_of ≡ request
    → m.more_body ≡ false
    → total + body_size (chunks ++ m ∷ []) ≤ limit
    → read_body limit total (chunks ++ m ∷ rest) ≡ complete (chunks ++ m ∷ []) rest
unfolding read_body
read_body-complete limit total [] m rest parts kind last fits =
    last-complete m.type_of limit total m rest (read_body limit total rest)
      (read_body limit (total + length m.body) rest) kind last (omega (arith, fits))
read_body-complete limit total (c ∷ chunks) m rest parts kind last fits =
    turn-complete c.type_of limit total (body_size (chunks ++ m ∷ [])) c (chunks ++ m ∷ rest)
      (chunks ++ m ∷ []) rest (read_body limit total (chunks ++ m ∷ rest))
      (read_body limit (total + length c.body) (chunks ++ m ∷ rest)) parts.0 fits
      (λ within. read_body-complete limit total chunks m rest parts.1 kind last within)
      (λ within.
        read_body-complete limit (total + length c.body) chunks m rest parts.1 kind last within)
