-- ===== src/Services/Inbound/Locate.antt =====
-- app/services/connection_service.py, `_submit_task_reply`: the task that a message is about, and
-- the command that it holds.
use text.Mathlib.Text.{◌==◌ as str_eq}
use human_llm_gateway.Prelude.{
  String, Bool, ◌&&◌, Option, none, some, List, [], ◌∷◌, ◌==◌, is_empty, strip, if◌then◌else◌,
}
use Prim.Native.Char.{code}
use human_llm_gateway.Domain.Enums.{waiting_human, same_state}
use human_llm_gateway.Model.Task.{RequestTask}
use human_llm_gateway.Model.Connection.{ImConnection}
use human_llm_gateway.Model.Db.{Db}
use human_llm_gateway.Table.Rows.{select_where, find_where}
use human_llm_gateway.Commands.Syntax.{Command, before, after, parse_command}
use human_llm_gateway.Services.Inbound.{InboundMessage, is_given}

abbrev pub task_named : ImConnection → String → RequestTask → Bool
task_named row public_id t = str_eq t.public_id public_id && t.owner_user_id == row.owner_user_id

unfoldable pub find_task_by_public_id : Db → ImConnection → String → Option RequestTask
find_task_by_public_id db row public_id =
    let found = find_where (task_named row public_id) db.tasks in
    if is_empty public_id then none else found

abbrev pub is_waiting_of : ImConnection → RequestTask → Bool
is_waiting_of row t = t.owner_user_id == row.owner_user_id && same_state t.state waiting_human

-- `rows[0] if len(rows) == 1 else None`
abbrev pub sole {ℓ} : {A : Type ℓ} → List A → Option A
sole (x ∷ []) = some x
sole _ = none

unfoldable pub sole_waiting_task : Db → ImConnection → Option RequestTask
sole_waiting_task db row = sole (select_where (is_waiting_of row) db.tasks)

-- The text, the task and the command behind the search; `refused` is its `return`.
pub data Located : Type 0 where
  refused : Located
  at : String → Option RequestTask → Option Command → Located

-- A task that was named must be there.
abbrev pub named_task : Option RequestTask → String → Option Command → Located
named_task none text command = refused
named_task (some task) text command = at text (some task) command

abbrev pub command_target : Option Command → Option String
command_target none = none
command_target (some command) = command.target

-- The text behind the task's name, and the command in it.
abbrev pub after_mark : Option RequestTask → String → String → Option Command → Located
after_mark none text rest command = at text none command
after_mark (some task) text rest none = at rest (some task) (parse_command rest)
after_mark (some task) text rest (some command) = at rest (some task) (some command)

-- `text.startswith("#")`
abbrev pub marked_task : Db → ImConnection → String → Option Command → Located
marked_task db row String.[] command = at String.[] none command
marked_task db row (String.◌∷◌ c s) command =
    let found = find_task_by_public_id db row (before 32 s) in
    if code c == 35
    then after_mark found (String.◌∷◌ c s) (strip (after 32 s)) command
    else at (String.◌∷◌ c s) none command

abbrev pub text_of_option : Option String → String
text_of_option none = ""
text_of_option (some text) = text

unfoldable pub explicit_task : Db → ImConnection → InboundMessage → String → Located
explicit_task db row message text =
    let command = parse_command text in
    let reply_to = text_of_option message.reply_to_public_id in
    let target = text_of_option (command_target command) in
    if is_given message.reply_to_public_id
    then named_task (find_task_by_public_id db row reply_to) text command
    else if is_given (command_target command)
    then named_task (find_task_by_public_id db row target) text command
    else marked_task db row text command

-- The sole waiting task, where the message names none.
abbrev pub or_sole : Db → ImConnection → Located → Located
or_sole db row refused = refused
or_sole db row (at text none command) = at text (sole_waiting_task db row) command
or_sole db row (at text (some task) command) = at text (some task) command

unfoldable pub locate : Db → ImConnection → InboundMessage → String → Located
locate db row message text = or_sole db row (explicit_task db row message text)
