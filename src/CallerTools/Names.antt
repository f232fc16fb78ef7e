-- ===== src/CallerTools/Names.antt =====
-- The check that a request declares no tool name twice, and what it gives to the catalog.
use text.Mathlib.Text.{◌==◌ as str_eq}
use text.Mathlib.TextPositions.{eq_refl}
use human_llm_gateway.Prelude.{
  ◌≡◌, refl, String, Bool, false, ◌||◌, Bool-cases, inl, inr, some, List, [], ◌∷◌, All, All-both,
  All-weaken, arith,
}
use human_llm_gateway.Result.{ok}
use human_llm_gateway.CallerTools.Catalog.{
  CallerToolDefinition, get, name_in, assert_unique_from, assert_unique_tool_names,
}

-- What one turn of the loop has checked.
assert_unique_from-cons :
    (seen : List String) (tool : CallerToolDefinition) (rest : List CallerToolDefinition)
    → assert_unique_from seen (tool ∷ rest) ≡ ok tt
    → (name_in tool.name seen ≡ false) × (assert_unique_from (tool.name ∷ seen) rest ≡ ok tt)
unfolding assert_unique_from
assert_unique_from-cons seen tool rest h = elim (Bool-cases (name_in tool.name seen)) [
  | inl e ↦ ground arith
  | inr e ↦ ground arith
]

or_false : (a b : Bool) → (a || b) ≡ false → (a ≡ false) × (b ≡ false)
or_false a b h = ground arith

get-head :
    (tool : CallerToolDefinition) (rest : List CallerToolDefinition)
    → get (tool ∷ rest) tool.name ≡ some tool
get-head tool rest = rw (eq_refl tool.name) refl

-- A later definition with another name is found behind the first one.
get-tail :
    (seen : List String) (tool : CallerToolDefinition) (rest : List CallerToolDefinition)
    (t : CallerToolDefinition)
    → name_in t.name (tool.name ∷ seen) ≡ false
    → get rest t.name ≡ some t
    → get (tool ∷ rest) t.name ≡ some t
get-tail seen tool rest t fresh found =
    rw ((or_false (str_eq tool.name t.name) (name_in t.name seen) fresh).0) found

not_seen :
    (seen : List String) (definitions : List CallerToolDefinition)
    → assert_unique_from seen definitions ≡ ok tt
    → All (λ tool. name_in tool.name seen ≡ false) definitions
not_seen seen [] h = tt
not_seen seen (tool ∷ rest) h =
    let (fresh, later) = assert_unique_from-cons seen tool rest h in
    (
      fresh,
      All-weaken _ _ (λ t p. (or_false (str_eq tool.name t.name) _ p).1) rest
          (not_seen (tool.name ∷ seen) rest later),
    )

get-own :
    (seen : List String) (definitions : List CallerToolDefinition)
    → assert_unique_from seen definitions ≡ ok tt
    → All (λ tool. get definitions tool.name ≡ some tool) definitions
get-own seen [] h = tt
get-own seen (tool ∷ rest) h =
    let (_, later) = assert_unique_from-cons seen tool rest h in
    (
      get-head tool rest,
      All-both _ _ _ (get-tail seen tool rest) rest (not_seen (tool.name ∷ seen) rest later)
          (get-own (tool.name ∷ seen) rest later),
    )

-- Where the tool names of a request pass the check for duplicates, every declared tool is the
-- one that the catalog returns for its name.
pub assert_unique_tool_names-get :
    (definitions : List CallerToolDefinition)
    → assert_unique_tool_names definitions ≡ ok tt
    → All (λ tool. get definitions tool.name ≡ some tool) definitions
unfolding assert_unique_tool_names
assert_unique_tool_names-get definitions h = get-own [] definitions h
