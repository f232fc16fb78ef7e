-- ===== src/CallerTools/Validation.antt =====
-- app/services/caller_tool_service.py: structural and full validation of the calls in a reply.
-- The JSON Schema validator is a library; whether it accepts the arguments is a parameter.
use text.Mathlib.Text.{◌==◌ as str_eq}
use human_llm_gateway.Prelude.{
  String, Bool, true, false, ◌&&◌, not, Option, none, some, List, [], ◌∷◌, if◌then◌else◌, is_blank,
  is_empty, length, ltb,
}
use human_llm_gateway.Prelude.Json.{Json, obj, end}
use human_llm_gateway.Domain.Enums.{validation_failed}
use human_llm_gateway.Result.{Result, ok, ◌>>=◌, ◌>>◌, raise, raise_public, refuse_if}
use human_llm_gateway.CallerTools.Catalog.{
  CallerToolDefinition, CallerToolChoice, no_tools, required, named, CallerToolPolicy,
  CallerToolCatalog, get, is_generatable, name_in,
}

-- One call as a dict: a field that is no text, or arguments that are no dict, are `none`.
pub record ToolCall : Type 0 where
  pub id : Option String
  pub name : Option String
  pub arguments : Option Json

-- `not isinstance(value, str) or not value.strip()`
abbrev pub text_of : Option String → Result String
text_of none = raise validation_failed 400
text_of (some s) = if is_blank s then raise validation_failed 400 else ok s

abbrev pub declared : Option CallerToolDefinition → Result CallerToolDefinition
declared none = raise_public validation_failed 400 "caller_tool_not_declared"
declared (some tool) = ok tool

abbrev pub object_of : Option Json → Result Json
object_of none = raise validation_failed 400
object_of (some arguments) = ok arguments

-- `catalog.is_empty`
abbrev pub no_definitions : List CallerToolDefinition → Bool
no_definitions [] = true
no_definitions (tool ∷ rest) = false

abbrev pub is_text : Option String → String → Bool
is_text none wanted = false
is_text (some s) wanted = str_eq s wanted

-- Every name of the calls is the given one.
abbrev pub all_named : String → List ToolCall → Bool
all_named wanted [] = true
all_named wanted (call ∷ rest) =
    let later = all_named wanted rest in (is_text call.name wanted && later)

-- `required_name and names == {required_name}`, given that there is a call.
abbrev pub names_are : Option String → List ToolCall → Bool
names_are none calls = false
names_are (some wanted) calls = not (is_empty wanted) && all_named wanted calls

-- The rules of the policy, on a reply without calls and on one with some.
abbrev pub without_calls : CallerToolChoice → Result (Unit {0})
without_calls required = raise validation_failed 400
without_calls named = raise validation_failed 400
without_calls _ = ok tt

abbrev pub is_no_tools : CallerToolChoice → Bool
is_no_tools no_tools = true
is_no_tools _ = false

abbrev pub is_named : CallerToolChoice → Bool
is_named named = true
is_named _ = false

unfoldable pub with_calls : CallerToolPolicy → List ToolCall → Result (Unit {0})
with_calls policy calls = do
  refuse_if (is_no_tools policy.choice) (raise validation_failed 400)
  refuse_if (is_named policy.choice && not (names_are policy.required_name calls))
      (raise validation_failed 400)
  refuse_if (not policy.parallel_allowed && ltb 1 (length calls)) (raise validation_failed 400)

unfoldable pub check_policy : CallerToolPolicy → List ToolCall → Result (Unit {0})
unfolding with_calls
check_policy policy [] = without_calls policy.choice
check_policy policy (call ∷ rest) = with_calls policy (call ∷ rest)

-- `_schema_errors` finds nothing: an empty schema is not looked at.
abbrev pub no_schema_errors : (Json → Json → Bool) → Json → Json → Bool
no_schema_errors accepts (obj end) arguments = true
no_schema_errors accepts schema arguments = accepts schema arguments

module _ (schema_accepts : Json → Json → Bool) where
  -- The body of the loop, after the check of the ID.
  unfoldable pub check_call : List CallerToolDefinition → ToolCall → Result (Unit {0})
  check_call definitions call = do
    name ← text_of call.name
    tool ← declared (get definitions name)
    refuse_if (not (is_generatable tool))
        (raise_public validation_failed 400 "caller_tool_type_unsupported")
    arguments ← object_of call.arguments
    refuse_if (not (no_schema_errors schema_accepts tool.input_schema arguments))
        (raise validation_failed 400)

  unfoldable pub check_calls :
      List CallerToolDefinition → List String → List ToolCall → Result (Unit {0})
  unfolding check_call
  check_calls definitions seen [] = ok tt
  check_calls definitions seen (call ∷ rest) = do
    call_id ← text_of call.id
    refuse_if (name_in call_id seen) (raise validation_failed 400)
    check_call definitions call
    check_calls definitions (call_id ∷ seen) rest

  unfoldable pub validate_structural : CallerToolCatalog → List ToolCall → Result (Unit {0})
  unfolding check_calls
  validate_structural catalog [] = ok tt
  validate_structural catalog (call ∷ rest) = do
    refuse_if (no_definitions catalog.definitions)
        (raise_public validation_failed 400 "caller_tools_not_available")
    check_calls catalog.definitions [] (call ∷ rest)

  unfoldable pub validate_full : CallerToolCatalog → List ToolCall → Result (Unit {0})
  unfolding validate_structural check_policy
  validate_full catalog calls = do
    validate_structural catalog calls
    check_policy catalog.policy calls
