-- ===== src/Commands/Syntax.antt =====
-- app/domain/dsl.py. A character is compared by its code point; the regular expression of a command
-- and `str.partition` are recursions on the text.
use Prim.Native.Char.{Char, code}
use text.Mathlib.Text.{◌==◌ as str_eq}
use human_llm_gateway.Prelude.{
  ℕ, zero, suc, ◌-◌, String, Bool, true, false, ◌&&◌, ◌||◌, not, Option, none, some, List, [], ◌∷◌,
  ◌==◌, leb, is_empty, is_space, is_blank, strip, stripped, if◌then◌else◌,
}
use human_llm_gateway.Services.Workbench.{ReplyDraft}

pub record Command : Type 0 where
  pub name : String
  pub args : String
  pub body : String
  pub target : Option String
  pub unknown : Bool

-- `text.startswith(c)` for a character.
abbrev pub starts_with : ℕ → String → Bool
starts_with sep String.[] = false
starts_with sep (String.◌∷◌ c s) = code c == sep

-- The first and the last part of `text.partition(c)` for a character.
abbrev pub before : ℕ → String → String
before sep String.[] = String.[]
before sep (String.◌∷◌ c s) =
    let rest = String.◌∷◌ c (before sep s) in if code c == sep then String.[] else rest

abbrev pub after : ℕ → String → String
after sep String.[] = String.[]
after sep (String.◌∷◌ c s) = let rest = after sep s in if code c == sep then s else rest

abbrev pub is_letter : Char → Bool
is_letter c = (leb 65 (code c) && leb (code c) 90) || (leb 97 (code c) && leb (code c) 122)

-- `[A-Za-z0-9_]`
abbrev pub is_word : Char → Bool
is_word c = is_letter c || ((leb 48 (code c) && leb (code c) 57) || code c == 95)

-- The longest prefix that `[A-Za-z0-9_]*` matches, and the text behind it.
abbrev pub word : String → String
word String.[] = String.[]
word (String.◌∷◌ c s) =
    let longer = String.◌∷◌ c (word s) in if is_word c then longer else String.[]

abbrev pub after_word : String → String
after_word String.[] = String.[]
after_word (String.◌∷◌ c s) = let rest = after_word s in if is_word c then rest else String.◌∷◌ c s

abbrev pub char_at : Char → String → ℕ → Char
char_at default String.[] n = default
char_at default (String.◌∷◌ c s) zero = c
char_at default (String.◌∷◌ c s) (suc n) = char_at default s n

-- `text.lower()`, on the letters of a command's name.
abbrev pub lower_char : Char → Char
lower_char c =
    let small = char_at c "abcdefghijklmnopqrstuvwxyz" (code c - 65) in
    if leb 65 (code c) && leb (code c) 90 then small else c

abbrev pub lower : String → String
lower String.[] = String.[]
lower (String.◌∷◌ c s) = String.◌∷◌ (lower_char c) (lower s)

-- `text.lstrip("\n")`
abbrev pub lstrip_newlines : String → String
lstrip_newlines String.[] = String.[]
lstrip_newlines (String.◌∷◌ c s) =
    let rest = lstrip_newlines s in if code c == 10 then rest else String.◌∷◌ c s

-- A character in front of the tokens of the text behind it, which starts a token or goes on with one.
abbrev pub onto_token : Bool → Char → List String → List String
onto_token true c (token ∷ tokens) = String.◌∷◌ c token ∷ tokens
onto_token _ c tokens = String.◌∷◌ c String.[] ∷ tokens

abbrev pub goes_on : String → Bool
goes_on String.[] = false
goes_on (String.◌∷◌ c s) = not (is_space c)

-- `text.split()`
abbrev pub split : String → List String
split String.[] = []
split (String.◌∷◌ c s) =
    let rest = split s in if is_space c then rest else onto_token (goes_on s) c rest

-- `(target, rest)` of a text that starts with `#`, without that character.
abbrev pub located : String → String → Option String × String
located text marked =
    let candidate = strip (before 32 marked) in
    if is_empty candidate then (none, text) else (some candidate, strip (after 32 marked))

abbrev pub split_marked : String → String → Option String × String
split_marked text String.[] = (none, text)
split_marked text (String.◌∷◌ c s) = if code c == 35 then located text s else (none, text)

unfoldable pub split_target : String → Option String × String
split_target text = split_marked text (strip text)

abbrev pub extract_marked : String → Option String × String
extract_marked String.[] = (none, String.[])
extract_marked (String.◌∷◌ c s) =
    if code c == 35 then (stripped (before 32 s), strip (after 32 s)) else (none, String.◌∷◌ c s)

unfoldable pub extract_task_target : String → Option String × String
extract_task_target text = extract_marked (strip text)

abbrev pub unknown_command : String → Command
unknown_command name = record {
  name = name;
  args = String.[];
  body = String.[];
  target = none;
  unknown = true;
}

abbrev pub is_reply_name : String → Bool
is_reply_name name = str_eq name "ans" || str_eq name "res"

abbrev pub is_command_name : String → Bool
is_command_name name =
    is_reply_name name || (str_eq name "page" || (str_eq name "file" || str_eq name "commit"))

-- `rest[1:] if rest.startswith((" ", "\t")) else rest.lstrip("\n")`
abbrev pub reply_body : String → String
reply_body String.[] = String.[]
reply_body (String.◌∷◌ c s) =
    if code c == 32 || code c == 9 then s else lstrip_newlines (String.◌∷◌ c s)

-- `/ans` and `/res`
unfoldable pub reply_command : String → String → Command
reply_command name rest =
    let located = split_target (reply_body rest) in
    record { name = name; args = String.[]; body = located.1; target = located.0; unknown = false }

-- A first token `#<id>`, and the tokens behind it.
abbrev pub token_target : List String → Option String × List String
token_target [] = (none, [])
token_target (String.[] ∷ tokens) = (none, String.[] ∷ tokens)
token_target (String.◌∷◌ c s ∷ tokens) =
    if code c == 35 && not (is_empty s) then (some s, tokens) else (none, String.◌∷◌ c s ∷ tokens)

abbrev pub first_token : List String → String
first_token [] = String.[]
first_token (token ∷ tokens) = token

-- `/page`, `/file` and `/commit`
unfoldable pub action_command : String → String → Command
action_command name rest =
    let located = token_target (split (before 10 rest)) in
    record {
      name = name;
      args = if str_eq name "commit" then String.[] else first_token located.1;
      body = String.[];
      target = located.0;
      unknown = false;
    }

unfoldable pub command_of : String → String → Command
command_of name rest =
    if not (is_command_name name)
    then unknown_command name
    else if is_reply_name name
    then reply_command name rest
    else action_command name rest

-- The command behind its slash: `_COMMAND_RE.match`, then the rest of `parse_command`.
abbrev pub parse_named : String → Command
parse_named String.[] = unknown_command String.[]
parse_named (String.◌∷◌ c s) =
    if is_letter c
    then command_of (lower (String.◌∷◌ c (word s))) (after_word s)
    else unknown_command String.[]

abbrev pub parse_stripped : String → Option Command
parse_stripped String.[] = none
parse_stripped (String.◌∷◌ c s) = if code c == 47 then some (parse_named s) else none

unfoldable pub parse_command : String → Option Command
parse_command text = parse_stripped (strip text)

abbrev pub is_some {ℓ} : {A : Type ℓ} → Option A → Bool
is_some none = false
is_some (some a) = true

unfoldable pub is_command_text : String → Bool
is_command_text text = is_some (parse_command text)

unfoldable pub parse_reply : String → ReplyDraft
parse_reply body = record { reasoning = none; tool_calls = []; final_text = stripped body }

unfoldable pub parse_message : String → Option String × ReplyDraft
parse_message text = let located = extract_task_target text in (located.0, parse_reply located.1)

abbrev pub blank_text : Option String → Bool
blank_text none = true
blank_text (some text) = is_blank text

unfoldable pub is_empty_draft : ReplyDraft → Bool
is_empty_draft draft = blank_text draft.final_text
