-- ===== src/CallerTools/Policy.antt =====
-- app/domain/caller_tools.py: the normalized meaning of `tool_choice`.
use Prim.Native.Char.{code}
use human_llm_gateway.Prelude.{
  ℕ, ◌+◌, String, Bool, true, false, ◌&&◌, none, if◌then◌else◌, leb, ◌==◌,
}
use human_llm_gateway.Prelude.Json.{
  Json, bool, str, obj, Fields, get_field, dict_get, is_dict, as_text,
}
use human_llm_gateway.Domain.Enums.{
  InferenceProtocol, openai_chat, openai_responses, anthropic_messages, type_safe_systemone,
}
use human_llm_gateway.CallerTools.Catalog.{
  CallerToolChoice, auto, no_tools, required, named, CallerToolPolicy, CallerToolCatalog,
  parse_tools,
}

-- One character of a text that is compared in lower case with an ASCII word.
abbrev pub same_letter : ℕ → ℕ → Bool
same_letter c w = (if leb 65 c && leb c 90 then c + 32 else c) == w

-- `text.lower() == word` for a word of small ASCII letters.
abbrev pub lower_is : String → String → Bool
lower_is String.[] String.[] = true
lower_is (String.◌∷◌ c s) (String.◌∷◌ w ws) = same_letter (code c) (code w) && lower_is s ws
lower_is _ _ = false

abbrev pub plain_policy : CallerToolChoice → CallerToolPolicy
plain_policy choice = record { choice = choice; required_name = none; parallel_allowed = true }

-- `_named`
abbrev pub named_policy : Json → CallerToolPolicy
named_policy name = record { choice = named; required_name = as_text name; parallel_allowed = true }

-- The mapping of the OpenAI protocols; a word that it lacks means auto.
abbrev pub openai_word : String → CallerToolChoice
openai_word word =
    if lower_is word "none" then no_tools else if lower_is word "required" then required else auto

abbrev pub anthropic_word : String → CallerToolChoice
anthropic_word word =
    if lower_is word "none"
    then no_tools
    else if lower_is word "any"
    then required
    else if lower_is word "tool"
    then named
    else auto

unfoldable pub parse_chat_choice : Json → CallerToolPolicy
parse_chat_choice (obj fields) =
    let function = get_field fields "function" in
    if is_dict function
    then named_policy (dict_get function "name")
    else named_policy (get_field fields "name")
parse_chat_choice (str word) = plain_policy (openai_word word)
parse_chat_choice _ = plain_policy auto

unfoldable pub parse_responses_choice : Json → CallerToolPolicy
parse_responses_choice (obj fields) = named_policy (get_field fields "name")
parse_responses_choice (str word) = plain_policy (openai_word word)
parse_responses_choice _ = plain_policy auto

anthropic_kind : Fields → Json → CallerToolPolicy
anthropic_kind fields (str kind) =
    if lower_is kind "tool"
    then named_policy (get_field fields "name")
    else plain_policy (anthropic_word kind)
anthropic_kind fields _ = plain_policy auto

unfoldable pub parse_anthropic_choice : Json → CallerToolPolicy
unfolding anthropic_kind
parse_anthropic_choice (obj fields) = anthropic_kind fields (get_field fields "type")
parse_anthropic_choice (str word) = plain_policy (anthropic_word word)
parse_anthropic_choice _ = plain_policy auto

-- `isinstance(parallel, bool) and not parallel`
abbrev pub is_false : Json → Bool
is_false (bool false) = true
is_false _ = false

abbrev pub is_true : Json → Bool
is_true (bool true) = true
is_true _ = false

abbrev pub restrict : Bool → CallerToolPolicy → CallerToolPolicy
restrict serial policy = if serial then record policy { parallel_allowed = false } else policy

unfoldable pub parse_policy : InferenceProtocol → Json → Fields → CallerToolPolicy
unfolding parse_chat_choice parse_responses_choice parse_anthropic_choice
parse_policy type_safe_systemone tool_choice raw_payload = plain_policy auto
parse_policy openai_chat tool_choice raw_payload =
    restrict (is_false (get_field raw_payload "parallel_tool_calls"))
      (parse_chat_choice tool_choice)
parse_policy openai_responses tool_choice raw_payload =
    restrict (is_false (get_field raw_payload "parallel_tool_calls"))
      (parse_responses_choice tool_choice)
parse_policy anthropic_messages tool_choice raw_payload =
    restrict (is_true (dict_get tool_choice "disable_parallel_tool_use"))
      (parse_anthropic_choice tool_choice)

unfoldable pub build_caller_tool_catalog : InferenceProtocol → Fields → CallerToolCatalog
unfolding parse_tools parse_policy
build_caller_tool_catalog protocol raw_payload = record {
  definitions = parse_tools protocol (get_field raw_payload "tools");
  policy = parse_policy protocol (get_field raw_payload "tool_choice") raw_payload;
}
