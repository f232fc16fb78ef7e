-- ===== src/CallerTools/Catalog.antt =====
-- app/domain/caller_tools.py: tool definitions of the three protocols, and the catalog.
use text.Mathlib.Text.{◌==◌ as str_eq}
use human_llm_gateway.Prelude.{
  String, Bool, true, false, ◌||◌, Option, none, some, List, [], ◌∷◌, if◌then◌else◌, is_empty,
}
use human_llm_gateway.Prelude.Json.{
  num, Json, null, bool, str, arr, obj, Items, nil, cons, Fields, end, field, get_field, dict_get,
  as_text,
}
use human_llm_gateway.Domain.Enums.{
  InferenceProtocol, openai_chat, openai_responses, anthropic_messages, type_safe_systemone,
  invalid_request,
}
use human_llm_gateway.Result.{Result, ok, raise}

pub data CallerToolChoice : Type 0 where
  auto no_tools required named : CallerToolChoice

-- A description that is a text is kept; it is display only.
pub record CallerToolDefinition : Type 0 where
  pub name : String
  pub description : Option String
  pub input_schema : Json
  pub source_type : String

unfoldable pub is_generatable : CallerToolDefinition → Bool
is_generatable tool = str_eq tool.source_type "function" || str_eq tool.source_type "custom"

pub record CallerToolPolicy : Type 0 where
  pub choice : CallerToolChoice
  pub required_name : Option String
  pub parallel_allowed : Bool

pub record CallerToolCatalog : Type 0 where
  pub definitions : List CallerToolDefinition
  pub policy : CallerToolPolicy

abbrev pub get : List CallerToolDefinition → String → Option CallerToolDefinition
get [] name = none
get (tool ∷ rest) name =
    let later = get rest name in if str_eq tool.name name then some tool else later

-- `schema if isinstance(schema, dict) else {"type": "object", "properties": {}}`
abbrev pub schema_or_default : Json → Json
schema_or_default (obj fields) = obj fields
schema_or_default _ = obj (field "type" (str "object") (field "properties" (obj end) end))

-- `str(value or default)`. A list or a dict that is not empty is shown by Python as a text in
-- brackets, for which "[]" stands: no such text is "function" or "custom".
abbrev pub type_text : Json → String → String
type_text null fallback = fallback
type_text (bool false) fallback = fallback
type_text (bool true) fallback = "True"
type_text (num true text) fallback = fallback
type_text (num false text) fallback = text
type_text (str s) fallback = if is_empty s then fallback else s
type_text (arr nil) fallback = fallback
type_text (arr (cons item rest)) fallback = "[]"
type_text (obj end) fallback = fallback
type_text (obj (field key value rest)) fallback = "[]"

define : Option String → Json → Json → String → Option CallerToolDefinition
define none description schema source_type = none
define (some name) description schema source_type = some (record {
  name = name;
  description = as_text description;
  input_schema = schema_or_default schema;
  source_type = source_type;
})

unfoldable pub chat_tool_def : Fields → Option CallerToolDefinition
unfolding define
chat_tool_def item =
    let function = get_field item "function" in
    define (as_text (dict_get function "name")) (dict_get function "description")
      (dict_get function "parameters") (type_text (get_field item "type") "function")

unfoldable pub responses_tool_def : Fields → Option CallerToolDefinition
unfolding define
responses_tool_def item =
    define (as_text (get_field item "name")) (get_field item "description")
      (get_field item "parameters") (type_text (get_field item "type") "function")

unfoldable pub anthropic_tool_def : Fields → Option CallerToolDefinition
unfolding define
anthropic_tool_def item =
    define (as_text (get_field item "name")) (get_field item "description")
      (get_field item "input_schema") (type_text (get_field item "type") "custom")

append_some : Option CallerToolDefinition → List CallerToolDefinition → List CallerToolDefinition
append_some none rest = rest
append_some (some tool) rest = tool ∷ rest

-- The loop over `tools`; an item that is no dict, or that the parser refuses, is passed over.
parse_items : (Fields → Option CallerToolDefinition) → Items → List CallerToolDefinition
unfolding append_some
parse_items parser nil = []
parse_items parser (cons (obj item) rest) = append_some (parser item) (parse_items parser rest)
parse_items parser (cons _ rest) = parse_items parser rest

unfoldable pub parse_tools : InferenceProtocol → Json → List CallerToolDefinition
unfolding parse_items
parse_tools type_safe_systemone (arr items) = []
parse_tools openai_chat (arr items) = parse_items chat_tool_def items
parse_tools openai_responses (arr items) = parse_items responses_tool_def items
parse_tools anthropic_messages (arr items) = parse_items anthropic_tool_def items
parse_tools _ _ = []

abbrev pub name_in : String → List String → Bool
name_in name [] = false
name_in name (x ∷ xs) = str_eq x name || name_in name xs

-- The loop with its set of the names seen.
unfoldable pub assert_unique_from : List String → List CallerToolDefinition → Result (Unit {0})
assert_unique_from seen [] = ok tt
assert_unique_from seen (tool ∷ rest) =
    let later = assert_unique_from (tool.name ∷ seen) rest in
    if name_in tool.name seen then raise invalid_request 400 else later

unfoldable pub assert_unique_tool_names : List CallerToolDefinition → Result (Unit {0})
unfolding assert_unique_from
assert_unique_tool_names definitions = assert_unique_from [] definitions
