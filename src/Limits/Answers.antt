-- ===== src/Limits/Answers.antt =====
-- What the middleware does with a request, by the size of its body.
use human_llm_gateway.Prelude.{
  ℕ, zero, suc, ◌≤◌, ◌≡◌, refl, sym, ap, ◌∙◌, Bool, true, false, Option, none, some, List, [], ◌∷◌,
  ◌++◌, take, arith, if◌then◌else◌,
}
use human_llm_gateway.Limits.Headers.{Scope, limit_for, declared_content_length}
use human_llm_gateway.Limits.Middleware.{
  Message, request, Reading, disconnected, too_large, pending, complete, read_body, Outcome, passed,
  replayed, refuse, after_reading, exceeds, limited, handle, replay,
}
use human_llm_gateway.Limits.Buffering.{body_size, read_body-Fits}
use human_llm_gateway.Limits.Chunks.{AllOpen, read_body-complete}

abbrev continue :
    Option (Message × (List Message × List Message))
    → (List Message → List Message → List Message)
    → List Message
continue none next = []
continue (some (m, (buffered, rest))) next = m ∷ next buffered rest

-- The messages that `n` calls of `replay` give.
abbrev pub read_many : ℕ → List Message → List Message → List Message
read_many zero buffered rest = []
read_many (suc n) buffered rest = continue (replay buffered rest) (read_many n)

read_many-take :
    (n : ℕ) (buffered rest : List Message) → read_many n buffered rest ≡ take n (buffered ++ rest)
read_many-take zero buffered rest = refl
read_many-take (suc n) (m ∷ buffered) rest = ap (λ ms. m ∷ ms) (read_many-take n buffered rest)
read_many-take (suc n) [] (m ∷ rest) = ap (λ ms. m ∷ ms) (read_many-take n [] rest)
read_many-take (suc n) [] [] = refl

-- A request that has a limit.
handled :
    (scope : Scope) (fresh : List ℕ) (limit : ℕ) (received : List Message)
    → scope.is_http ≡ true
    → limit_for scope.path ≡ some limit
    → handle scope fresh received ≡ limited scope fresh received (some limit)
unfolding handle
handled scope fresh limit received http bound =
    ap (λ h. if h then limited scope fresh received (limit_for scope.path) else passed) http
    ∙ ap (limited scope fresh received) bound

-- A request that has arrived in full, declares no length over its path's limit and has no more
-- bytes than that reaches the application, with all its messages.
pub handle_complete :
    (scope : Scope) (fresh : List ℕ) (limit : ℕ) (chunks : List Message) (m : Message)
    (rest : List Message)
    → scope.is_http ≡ true
    → limit_for scope.path ≡ some limit
    → exceeds (declared_content_length scope.headers) limit ≡ false
    → AllOpen chunks
    → m.type_of ≡ request
    → m.more_body ≡ false
    → body_size (chunks ++ m ∷ []) ≤ limit
    → handle scope fresh (chunks ++ m ∷ rest) ≡ replayed (chunks ++ m ∷ []) rest
handle_complete scope fresh limit chunks m rest http bound declared parts kind last fits =
    let result = after_reading scope fresh (read_body limit 0 (chunks ++ m ∷ rest)) in
    handled scope fresh limit (chunks ++ m ∷ rest) http bound
    ∙ (ap (λ (e : Bool). if e then refuse scope fresh else result) declared
        ∙ ap (after_reading scope fresh)
            (read_body-complete limit 0 chunks m rest parts kind last (omega (arith, fits))))

abbrev buffered_part : Outcome → List Message
buffered_part (replayed buffered rest) = buffered
buffered_part _ = []

abbrev rest_part : Outcome → List Message
rest_part (replayed buffered rest) = rest
rest_part _ = []

after_reading-replayed :
    (scope : Scope) (fresh : List ℕ) (result : Reading) {b r : List Message}
    → after_reading scope fresh result ≡ replayed b r
    → result ≡ complete b r
after_reading-replayed scope fresh (complete x y) {b} {r} h =
    ap (λ z. complete z y) (ap buffered_part h) ∙ ap (complete b) (ap rest_part h)
after_reading-replayed scope fresh disconnected h = cc
after_reading-replayed scope fresh too_large h = cc
after_reading-replayed scope fresh pending h = cc

-- An outcome that a test lets through.
let_through :
    (test : Bool) (x y : Outcome) {b r : List Message}
    → ¬ (x ≡ replayed b r)
    → (if test then x else y) ≡ replayed b r
    → y ≡ replayed b r
let_through true x y stopped h = absurd (stopped h)
let_through false x y stopped h = h

limited-replayed :
    (scope : Scope) (fresh : List ℕ) (received : List Message) (bound : Option ℕ)
    {b r : List Message}
    → limited scope fresh received bound ≡ replayed b r
    → (limit : ℕ) × (bound ≡ some limit) × (read_body limit 0 received ≡ complete b r)
limited-replayed scope fresh received none h = cc
limited-replayed scope fresh received (some limit) h = (
  limit,
  refl,
  after_reading-replayed scope fresh (read_body limit 0 received) (
      let_through (exceeds (declared_content_length scope.headers) limit) (refuse scope fresh)
        (after_reading scope fresh (read_body limit 0 received)) (λ e. cc) h),
)

-- Where the middleware runs the application on a buffered request, the path has a limit, the
-- buffered bodies have no more bytes than that, and what the application reads is, in order,
-- what was received.
pub handle-replayed :
    (scope : Scope) (fresh : List ℕ) (received : List Message) {b r : List Message}
    → handle scope fresh received ≡ replayed b r
    → (limit : ℕ) × (limit_for scope.path ≡ some limit)
      × (body_size b ≤ limit)
      × ((n : ℕ) → read_many n b r ≡ take n received)
unfolding handle
handle-replayed scope fresh received {b} {r} h =
    let (limit, bound, read) =
      limited-replayed scope fresh received (limit_for scope.path)
        (from_http scope.is_http (limited scope fresh received (limit_for scope.path)) h) in
    let (parts, within) = read_body-Fits limit 0 received read in
    (limit, bound, omega (arith, within), λ n. read_many-take n b r ∙ ap (take n) (sym parts))
  where
    from_http :
        (test : Bool) (x : Outcome) {b r : List Message}
        → (if test then x else passed) ≡ replayed b r
        → x ≡ replayed b r
    from_http true x h = h
    from_http false x h = cc
