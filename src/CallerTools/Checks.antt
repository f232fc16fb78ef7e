-- ===== src/CallerTools/Checks.antt =====
-- Validation of a reply: what the calls of an accepted reply satisfy.
use mathlib.Core.Logic.{inl, inr}
use text.Mathlib.TextEquality.{eq_iff}
use human_llm_gateway.Prelude.{
  ◌≤◌, ◌≡◌, refl, String, Bool, true, false, Bool-cases, Option, none, some, List, [], ◌∷◌, All,
  length, ltb, is_empty, is_blank, not, ◌&&◌, arith,
}
use human_llm_gateway.Prelude.Json.{Json}
use human_llm_gateway.Result.{ok, >>=-eq-ok, refuse_if-passed, refuse_if-last}
use human_llm_gateway.CallerTools.Catalog.{
  CallerToolDefinition, CallerToolChoice, no_tools, required, named, CallerToolPolicy,
  CallerToolCatalog, get, is_generatable, name_in,
}
use human_llm_gateway.CallerTools.Validation.{
  ToolCall, text_of, declared, object_of, no_schema_errors, check_call, check_calls,
  validate_structural, validate_full, with_calls, check_policy, all_named, names_are, without_calls,
  no_definitions, is_no_tools, is_named, is_text,
}

-- A call that the catalog covers: its name is declared with a type that can be called, and its
-- arguments are an object in which the schema finds no error.
pub record IsCovered (accepts : Json → Json → Bool) (definitions : List CallerToolDefinition)
    (call : ToolCall) : Type 0 where
  pub name : String
  pub name_eq : call.name ≡ some name
  pub tool : CallerToolDefinition
  pub declared_eq : get definitions name ≡ some tool
  pub can_be_called : is_generatable tool ≡ true
  pub arguments : Json
  pub arguments_eq : call.arguments ≡ some arguments
  pub accepted : no_schema_errors accepts tool.input_schema arguments ≡ true

-- The IDs are texts that are not blank, none in the list and no two of them the same.
pub data HasFreshIds : List String → List ToolCall → Type 0 where
  no_call : {seen : List String} → HasFreshIds seen []
  one_call :
      {seen : List String} {call : ToolCall} {rest : List ToolCall} (call_id : String)
      → call.id ≡ some call_id
      → is_blank call_id ≡ false
      → name_in call_id seen ≡ false
      → HasFreshIds (call_id ∷ seen) rest
      → HasFreshIds seen (call ∷ rest)

text_of-ok :
    (o : Option String) {s : String} → text_of o ≡ ok s → (o ≡ some s) × (is_blank s ≡ false)
text_of-ok none h = cc
text_of-ok (some t) {s} h = elim (Bool-cases (is_blank t)) [
  | inl e ↦ ground arith
  | inr e ↦ ground arith
]

declared-ok :
    (o : Option CallerToolDefinition) {tool : CallerToolDefinition}
    → declared o ≡ ok tool
    → o ≡ some tool
declared-ok none h = cc
declared-ok (some t) h = ground arith

object_of-ok :
    (o : Option Json) {arguments : Json} → object_of o ≡ ok arguments → o ≡ some arguments
object_of-ok none h = cc
object_of-ok (some a) h = ground arith

not-false : (b : Bool) → not b ≡ false → b ≡ true
not-false b h = ground arith

check_call-IsCovered :
    (accepts : Json → Json → Bool) (definitions : List CallerToolDefinition) (call : ToolCall)
    → check_call accepts definitions call ≡ ok tt
    → IsCovered accepts definitions call
unfolding check_call
check_call-IsCovered accepts definitions call h =
    let (name, named_ok, h1) = >>=-eq-ok (text_of call.name) _ h in
    let (tool, declared_ok, h2) = >>=-eq-ok (declared (get definitions name)) _ h1 in
    let (callable, h3) = refuse_if-passed (not (is_generatable tool)) _ _ h2 in
    let (arguments, object_ok, h4) = >>=-eq-ok (object_of call.arguments) _ h3 in
    let fits = refuse_if-last (not (no_schema_errors accepts tool.input_schema arguments)) _ h4 in
    record {
      name = name;
      name_eq = (text_of-ok call.name named_ok).0;
      tool = tool;
      declared_eq = declared-ok (get definitions name) declared_ok;
      can_be_called = not-false (is_generatable tool) callable;
      arguments = arguments;
      arguments_eq = object_of-ok call.arguments object_ok;
      accepted = not-false (no_schema_errors accepts tool.input_schema arguments) fits;
    }

check_calls_sound :
    (accepts : Json → Json → Bool) (definitions : List CallerToolDefinition) (seen : List String)
    (calls : List ToolCall)
    → check_calls accepts definitions seen calls ≡ ok tt
    → HasFreshIds seen calls × All (IsCovered accepts definitions) calls
unfolding check_calls
check_calls_sound accepts definitions seen [] h = (no_call, tt)
check_calls_sound accepts definitions seen (call ∷ rest) h =
    let (call_id, id_ok, h1) = >>=-eq-ok (text_of call.id) _ h in
    let (fresh, h2) = refuse_if-passed (name_in call_id seen) _ _ h1 in
    let (_, checked, h3) = >>=-eq-ok (check_call accepts definitions call) _ h2 in
    let (ids, covered) = check_calls_sound accepts definitions (call_id ∷ seen) rest h3 in
    let (id_eq, not_blank) = text_of-ok call.id id_ok in
    (
      one_call call_id id_eq not_blank fresh ids,
      (check_call-IsCovered accepts definitions call checked, covered),
    )

validate_structural_sound :
    (accepts : Json → Json → Bool) (catalog : CallerToolCatalog) (calls : List ToolCall)
    → validate_structural accepts catalog calls ≡ ok tt
    → HasFreshIds [] calls × All (IsCovered accepts catalog.definitions) calls
unfolding validate_structural
validate_structural_sound accepts catalog [] h = (no_call, tt)
validate_structural_sound accepts catalog (call ∷ rest) h =
    check_calls_sound accepts catalog.definitions [] (call ∷ rest)
      (refuse_if-passed (no_definitions catalog.definitions) _ _ h).1

-- The rules of a policy: how many calls, and of which tool.
pub record FollowsPolicy (policy : CallerToolPolicy) (calls : List ToolCall) : Type 0 where
  pub forbidden : policy.choice ≡ no_tools → calls ≡ []
  pub at_least_one : policy.choice ≡ required → 1 ≤ length calls
  pub only_that :
      policy.choice ≡ named
      → (1 ≤ length calls)
        × (wanted : String) × (policy.required_name ≡ some wanted)
        × All (λ call. call.name ≡ some wanted) calls
  pub one_by_one : policy.parallel_allowed ≡ false → length calls ≤ 1

is_text-eq : (o : Option String) (wanted : String) → is_text o wanted ≡ true → o ≡ some wanted
is_text-eq none wanted h = cc
is_text-eq (some s) wanted h = let e = (eq_iff s wanted).0 h in cc

both_true : (a b : Bool) → (a && b) ≡ true → (a ≡ true) × (b ≡ true)
both_true a b h = ground arith

all_named-All :
    (wanted : String) (calls : List ToolCall)
    → all_named wanted calls ≡ true
    → All (λ call. call.name ≡ some wanted) calls
all_named-All wanted [] h = tt
all_named-All wanted (call ∷ rest) h =
    let (here, later) = both_true (is_text call.name wanted) (all_named wanted rest) h in
    (is_text-eq call.name wanted here, all_named-All wanted rest later)

names_are-All :
    (o : Option String) (calls : List ToolCall)
    → names_are o calls ≡ true
    → (wanted : String) × (o ≡ some wanted) × All (λ call. call.name ≡ some wanted) calls
names_are-All none calls h = cc
names_are-All (some wanted) calls h =
    (wanted, refl, all_named-All wanted calls (both_true (not (is_empty wanted)) _ h).1)

without_calls-FollowsPolicy :
    (policy : CallerToolPolicy) → without_calls policy.choice ≡ ok tt → FollowsPolicy policy []
without_calls-FollowsPolicy policy h = record {
  forbidden = λ e. refl;
  at_least_one = λ e. ground arith;
  only_that = λ e. ground arith;
  one_by_one = λ e. ground arith;
}

names_hold :
    (choice : CallerToolChoice) (b : Bool)
    → (is_named choice && not b) ≡ false
    → choice ≡ named
    → b ≡ true
names_hold choice b h e = ground arith

with_calls-FollowsPolicy :
    (policy : CallerToolPolicy) (call : ToolCall) (rest : List ToolCall)
    → with_calls policy (call ∷ rest) ≡ ok tt
    → FollowsPolicy policy (call ∷ rest)
unfolding with_calls
with_calls-FollowsPolicy policy call rest h =
    let (allowed, h1) = refuse_if-passed (is_no_tools policy.choice) _ _ h in
    let (names_ok, h2) =
      refuse_if-passed
        (is_named policy.choice && not (names_are policy.required_name (call ∷ rest))) _ _ h1 in
    let serial_ok =
      refuse_if-last (not policy.parallel_allowed && ltb 1 (length (call ∷ rest))) _ h2 in
    record {
      forbidden = λ e. ground arith;
      at_least_one = λ e. ground arith;
      only_that = λ e.
          let (wanted, wanted_eq, all) =
            names_are-All policy.required_name (call ∷ rest)
              (names_hold policy.choice _ names_ok e) in
          (ground arith, wanted, wanted_eq, all);
      one_by_one = λ e. ground arith;
    }

check_policy-FollowsPolicy :
    (policy : CallerToolPolicy) (calls : List ToolCall)
    → check_policy policy calls ≡ ok tt
    → FollowsPolicy policy calls
unfolding check_policy
check_policy-FollowsPolicy policy [] h = without_calls-FollowsPolicy policy h
check_policy-FollowsPolicy policy (call ∷ rest) h = with_calls-FollowsPolicy policy call rest h

-- A reply that passes the full validation has call IDs that are not blank and pairwise
-- different, calls declared tools of a callable type with objects that their schemas accept, and
-- follows the request's policy in the number and the names of its calls.
pub validate_full_sound :
    (accepts : Json → Json → Bool) (catalog : CallerToolCatalog) (calls : List ToolCall)
    → validate_full accepts catalog calls ≡ ok tt
    → HasFreshIds [] calls
      × All (IsCovered accepts catalog.definitions) calls
      × FollowsPolicy catalog.policy calls
unfolding validate_full
validate_full_sound accepts catalog calls h =
    let (_, structural, policy_ok) = >>=-eq-ok (validate_structural accepts catalog calls) _ h in
    let (fresh, covered) = validate_structural_sound accepts catalog calls structural in
    (fresh, covered, check_policy-FollowsPolicy catalog.policy calls policy_ok)
