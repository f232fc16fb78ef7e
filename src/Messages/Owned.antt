-- ===== src/Messages/Owned.antt =====
-- Whose task a message is about (app/services/connection_service.py).
use human_llm_gateway.Prelude.{
  ◌≡◌, refl, String, true, Option, none, some, List, [], ◌∷◌, ◌==◌, Bool-cases, inl, inr, arith,
  is_empty, strip, if-holds, All,
}
use Prim.Native.Char.{code}
use human_llm_gateway.Model.Task.{RequestTask}
use human_llm_gateway.Model.Connection.{ImConnection}
use human_llm_gateway.Model.Db.{Db}
use human_llm_gateway.Table.Rows.{select_where, find_where}
use human_llm_gateway.Table.Selects.{select-All}
use human_llm_gateway.Commands.Syntax.{Command, before, after, parse_command}
use human_llm_gateway.Services.Inbound.{InboundEnv, InboundMessage, is_given}
use human_llm_gateway.Services.Inbound.Locate.{
  Located, refused, at, task_named, find_task_by_public_id, is_waiting_of, sole, sole_waiting_task,
  named_task, command_target, after_mark, marked_task, text_of_option, explicit_task, or_sole,
  locate,
}
use human_llm_gateway.Services.Inbound.Handler.{submit_task_reply}
use human_llm_gateway.Messages.Frames.{owned, owned_located, KeepsResult, act_on-Keeps}

named-owned :
    (row : ImConnection) (public_id : String) (t : RequestTask)
    → task_named row public_id t ≡ true
    → owned row (some t) ≡ true
named-owned row public_id t h = ground arith

found-owned :
    (row : ImConnection) (public_id : String) (ts : List RequestTask)
    → owned row (find_where (task_named row public_id) ts) ≡ true
found-owned row public_id [] = refl
found-owned row public_id (t ∷ ts) = elim (Bool-cases (task_named row public_id t)) [
  | inl met ↦ rw met (named-owned row public_id t met)
  | inr other ↦ rw other (found-owned row public_id ts)
]

find_task-owned :
    (a : Db) (row : ImConnection) (public_id : String)
    → owned row (find_task_by_public_id a row public_id) ≡ true
unfolding find_task_by_public_id
find_task-owned a row public_id =
    if-holds (λ o. owned row o ≡ true) (is_empty public_id) refl (found-owned row public_id a.tasks)

sole-owned :
    (row : ImConnection) (ts : List RequestTask)
    → All (λ t. owned row (some t) ≡ true) ts
    → owned row (sole ts) ≡ true
sole-owned row [] h = refl
sole-owned row (t ∷ []) h = h.0
sole-owned row (t ∷ u ∷ ts) h = refl

sole_waiting_task-owned : (a : Db) (row : ImConnection) → owned row (sole_waiting_task a row) ≡ true
unfolding sole_waiting_task
sole_waiting_task-owned a row =
    sole-owned row (select_where (is_waiting_of row) a.tasks)
      (select-All _ (is_waiting_of row) a.tasks (λ t h. ground arith))

named_task-owned :
    (row : ImConnection) (found : Option RequestTask) (text : String) (command : Option Command)
    → owned row found ≡ true
    → owned_located row (named_task found text command) ≡ true
named_task-owned row none text command own = refl
named_task-owned row (some task) text command own = own

after_mark-owned :
    (row : ImConnection) (found : Option RequestTask) (text rest : String)
    (command : Option Command)
    → owned row found ≡ true
    → owned_located row (after_mark found text rest command) ≡ true
after_mark-owned row none text rest command own = refl
after_mark-owned row (some task) text rest none own = own
after_mark-owned row (some task) text rest (some command) own = own

marked_task-owned :
    (a : Db) (row : ImConnection) (text : String) (command : Option Command)
    → owned_located row (marked_task a row text command) ≡ true
marked_task-owned a row String.[] command = refl
marked_task-owned a row (String.◌∷◌ c s) command =
    if-holds (λ l. owned_located row l ≡ true) (code c == 35)
      (after_mark-owned row _ _ (strip (after 32 s)) command (find_task-owned a row (before 32 s)))
      refl

explicit_task-owned :
    (a : Db) (row : ImConnection) (message : InboundMessage) (text : String)
    → owned_located row (explicit_task a row message text) ≡ true
unfolding explicit_task
explicit_task-owned a row message text =
    let P = λ (l : Located). owned_located row l ≡ true in
    let command = parse_command text in
    if-holds P (is_given message.reply_to_public_id)
      (named_task-owned row _ text command
        (find_task-owned a row (text_of_option message.reply_to_public_id)))
      (if-holds P (is_given (command_target command))
        (named_task-owned row _ text command
          (find_task-owned a row (text_of_option (command_target command))))
        (marked_task-owned a row text command))

or_sole-owned :
    (a : Db) (row : ImConnection) (located : Located)
    → owned_located row located ≡ true
    → owned_located row (or_sole a row located) ≡ true
or_sole-owned a row refused own = refl
or_sole-owned a row (at text none command) own = sole_waiting_task-owned a row
or_sole-owned a row (at text (some task) command) own = own

pub submit_task_reply-Keeps :
    (env : InboundEnv) (row : ImConnection) (message : InboundMessage) (a : Db)
    → KeepsResult row a (submit_task_reply env row message a)
unfolding submit_task_reply locate
submit_task_reply-Keeps env row message a =
    let text = strip message.text in
    let explicit = explicit_task a row message text in
    if-holds (KeepsResult row a) (is_empty text) (refl, inl refl)
      (act_on-Keeps env row (or_sole a row explicit) a
        (or_sole-owned a row explicit (explicit_task-owned a row message text)))
