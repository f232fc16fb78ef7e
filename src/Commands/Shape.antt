-- ===== src/Commands/Shape.antt =====
-- The commands that the parser returns.
use Prim.Native.Char.{code}
use human_llm_gateway.Prelude.{
  ◌≡◌, refl, ap, String, Bool, true, false, ◌&&◌, not, Option, none, some, List, [], ◌∷◌, ◌==◌, sym,
  ◌∙◌, some-injective, none-ne-some, is_empty, is_none, strip, Bool-cases, inl, inr, arith,
  if◌then◌else◌,
}
use human_llm_gateway.Commands.Syntax.{
  Command, before, split, after_word, word, lower, is_letter, split_marked, split_target,
  reply_body, is_reply_name, is_command_name, token_target, reply_command, action_command,
  command_of, parse_named, parse_stripped, parse_command,
}

-- A target names a task.
abbrev pub names_task : Option String → Bool
names_task none = true
names_task (some id) = not (is_empty id)

-- A refused command carries nothing. Any other has a known name and no empty target; only a reply
-- has a body, and only the other commands have an argument.
abbrev pub is_well_formed : Command → Bool
is_well_formed c =
    if c.unknown
    then is_empty c.args && (is_empty c.body && is_none c.target)
    else is_command_name c.name
      && (names_task c.target
          && (if is_reply_name c.name then is_empty c.args else is_empty c.body))

split_marked-names_task : (text s : String) → names_task (split_marked text s).0 ≡ true
split_marked-names_task text String.[] = refl
split_marked-names_task text (String.◌∷◌ c s) = elim (Bool-cases (code c == 35)) [
  | inl mark ↦ elim (Bool-cases (is_empty (strip (before 32 s)))) [
    | inl bare ↦ rw (mark, bare) refl
    | inr given ↦ rw (mark, given) (rw given refl)
  ]
  | inr other ↦ rw other refl
]

token_target-names_task : (tokens : List String) → names_task (token_target tokens).0 ≡ true
token_target-names_task [] = refl
token_target-names_task (String.[] ∷ tokens) = refl
token_target-names_task (String.◌∷◌ c s ∷ tokens) = ground arith

reply_command-IsWellFormed :
    (name rest : String)
    → is_reply_name name ≡ true
    → is_well_formed (reply_command name rest) ≡ true
unfolding reply_command split_target
reply_command-IsWellFormed name rest reply =
    let body = reply_body rest in rw (reply, split_marked-names_task body (strip body)) refl

action_command-IsWellFormed :
    (name rest : String)
    → is_command_name name ≡ true
    → is_reply_name name ≡ false
    → is_well_formed (action_command name rest) ≡ true
unfolding action_command
action_command-IsWellFormed name rest known other =
    rw (known, other, token_target-names_task (split (before 10 rest))) refl

command_of-IsWellFormed : (name rest : String) → is_well_formed (command_of name rest) ≡ true
unfolding command_of
command_of-IsWellFormed name rest = elim (Bool-cases (is_command_name name)) [
  | inl known ↦ elim (Bool-cases (is_reply_name name)) [
    | inl reply ↦ rw (known, reply) (reply_command-IsWellFormed name rest reply)
    | inr other ↦ rw (known, other) (action_command-IsWellFormed name rest known other)
  ]
  | inr unknown ↦ rw unknown refl
]

parse_named-IsWellFormed : (s : String) → is_well_formed (parse_named s) ≡ true
parse_named-IsWellFormed String.[] = refl
parse_named-IsWellFormed (String.◌∷◌ c s) = elim (Bool-cases (is_letter c)) [
  | inl letter ↦ rw letter (command_of-IsWellFormed (lower (String.◌∷◌ c (word s))) (after_word s))
  | inr other ↦ rw other refl
]

same_command : (a c : Command) → some a ≡ some c → is_well_formed a ≡ true → is_well_formed c ≡ true
same_command a c same h = ap is_well_formed (sym (some-injective a c same)) ∙ h

parse_stripped-IsWellFormed :
    (s : String) (c : Command) → parse_stripped s ≡ some c → is_well_formed c ≡ true
parse_stripped-IsWellFormed String.[] c h = absurd (none-ne-some c h)
parse_stripped-IsWellFormed (String.◌∷◌ x s) c h = elim (Bool-cases (code x == 47)) [
  | inl slash ↦ same_command (parse_named s) c (rw slash at h) (parse_named-IsWellFormed s)
  | inr other ↦ absurd (none-ne-some c (rw other at h))
]

-- A command that the parser returns and does not refuse has a known name and no empty target,
-- with a body only for /ans and /res and an argument only for the others; a refused command has
-- neither target, argument nor body.
pub parse_command-IsWellFormed :
    (text : String) (c : Command) → parse_command text ≡ some c → is_well_formed c ≡ true
unfolding parse_command
parse_command-IsWellFormed text c h = parse_stripped-IsWellFormed (strip text) c h
