-- ===== src/Examples/Tools.antt =====
-- A catalog with two tools, of which a call must name the first, and a reply that does.
use human_llm_gateway.Prelude.{◌≡◌, refl, Bool, true, false, none, some, List, [], ◌∷◌, All}
use human_llm_gateway.Prelude.Text.{is_space_code}
use human_llm_gateway.Prelude.Json.{Json, str, obj, end, field}
use human_llm_gateway.Result.{ok}
use human_llm_gateway.CallerTools.Catalog.{
  CallerToolDefinition, named, CallerToolCatalog, get, is_generatable, assert_unique_tool_names,
}
use human_llm_gateway.CallerTools.Validation.{ToolCall, validate_full}
use human_llm_gateway.CallerTools.Checks.{
  HasFreshIds, IsCovered, FollowsPolicy, validate_full_sound,
}
use human_llm_gateway.CallerTools.Names.{assert_unique_tool_names-get}

abbrev weather : CallerToolDefinition
weather = record {
  name = "weather";
  description = none;
  input_schema = obj (field "type" (str "object") end);
  source_type = "function";
}

abbrev clock : CallerToolDefinition
clock = record weather { name = "clock"; source_type = "custom" }

abbrev catalog : CallerToolCatalog
catalog = record {
  definitions = weather ∷ clock ∷ [];
  policy = record { choice = named; required_name = some "weather"; parallel_allowed = false };
}

abbrev calls : List ToolCall
calls = record { id = some "call_1"; name = some "weather"; arguments = some (obj end) } ∷ []

-- A validator that takes every object.
abbrev takes_objects : Json → Json → Bool
takes_objects schema (obj fields) = true
takes_objects schema _ = false

calls_pass : validate_full takes_objects catalog calls ≡ ok tt
unfolding validate_full is_generatable is_space_code
calls_pass = refl

validate_full_sound_example :
    HasFreshIds [] calls
    × All (IsCovered takes_objects catalog.definitions) calls
    × FollowsPolicy catalog.policy calls
validate_full_sound_example = validate_full_sound takes_objects catalog calls calls_pass

names_pass : assert_unique_tool_names catalog.definitions ≡ ok tt
unfolding assert_unique_tool_names
names_pass = refl

assert_unique_tool_names-get_example :
    All (λ tool. get catalog.definitions tool.name ≡ some tool) catalog.definitions
assert_unique_tool_names-get_example = assert_unique_tool_names-get catalog.definitions names_pass
