-- ===== src/Examples/Commands.antt =====
-- Messages that name a task and an answer.
use human_llm_gateway.Prelude.{◌≡◌, refl, inl, true, false, some}
use human_llm_gateway.Prelude.Text.{is_space_code}
use human_llm_gateway.Commands.Syntax.{
  Command, parse_command, command_of, reply_command, split_target,
}
use human_llm_gateway.Commands.Strips.{has_space}
use human_llm_gateway.Commands.RoundTrip.{parse_command-reply_text}
use human_llm_gateway.Commands.Shape.{is_well_formed, parse_command-IsWellFormed}

abbrev answer : Command
answer = record {
  name = "ans";
  args = "";
  body = "hello there";
  target = some "t_1";
  unknown = false;
}

id_dark : has_space "t_1" ≡ false
unfolding is_space_code
id_dark = refl

parse_command-reply_text_example : parse_command "/ans #t_1  hello there " ≡ some answer
unfolding is_space_code
parse_command-reply_text_example =
    parse_command-reply_text "ans" "t_1" " hello there " (inl refl) id_dark refl

parsed : parse_command "/ANS #t_1 hello there" ≡ some answer
unfolding parse_command command_of reply_command split_target is_space_code
parsed = refl

parse_command-IsWellFormed_example : is_well_formed answer ≡ true
parse_command-IsWellFormed_example =
    parse_command-IsWellFormed "/ANS #t_1 hello there" answer parsed
