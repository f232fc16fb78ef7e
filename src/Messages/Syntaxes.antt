-- ===== src/Messages/Syntaxes.antt =====
-- The two ways to name a task in front of a staged answer.
use human_llm_gateway.Prelude.{
  ◌≡◌, ◌⊎◌, refl, sym, ap, ◌∙◌, String, false, Option, none, some, [], is_empty, is_blank, lstrip,
  if-holds, rstrip, strip, append, rstrip-rstrip, strip-strip, Bool-cases, inl, inr,
}
use human_llm_gateway.Prelude.Text.{is_space_code}
use human_llm_gateway.Model.Task.{RequestTask}
use human_llm_gateway.Model.Connection.{ImConnection}
use human_llm_gateway.Model.Db.{Db}
use human_llm_gateway.Commands.Syntax.{
  Command, starts_with, split_marked, split_target, reply_body, reply_command, command_of,
  parse_stripped, parse_command,
}
use human_llm_gateway.Commands.Strips.{has_space, lstrip-blank}
use human_llm_gateway.Commands.RoundTrip.{
  tail, target_text, reply_text, rstrip-tail, target_id, target_rest, parse_command-reply_text,
}
use human_llm_gateway.Services.Inbound.{InboundEnv, InboundMessage, Handled, unhandled_with}
use human_llm_gateway.Services.Inbound.Locate.{at, find_task_by_public_id, explicit_task, locate}
use human_llm_gateway.Services.Inbound.Staging.{final_kind, stage_draft}
use human_llm_gateway.Result.{Result, ok}
use human_llm_gateway.Services.Inbound.Handler.{act_on, handle_command, submit_task_reply}

parse_command-strip : (text : String) → parse_command (strip text) ≡ parse_command text
unfolding parse_command
parse_command-strip text = ap parse_stripped (strip-strip text)

rstrip_trimmed : (body : String) → strip body ≡ body → rstrip body ≡ body
rstrip_trimmed body h = ap rstrip (sym h) ∙ (rstrip-rstrip (lstrip body) ∙ h)

reply_body-tail : (body : String) → strip body ≡ body → reply_body (tail body) ≡ body
unfolding is_space_code
reply_body-tail body h = elim (Bool-cases (is_blank body)) [
  | inl blank ↦ rw blank (sym (ap rstrip (lstrip-blank body blank)) ∙ h)
  | inr more ↦ rw more (rstrip_trimmed body h)
]

split_marked-plain :
    (text s : String) → starts_with 35 s ≡ false → split_marked text s ≡ (none, text)
split_marked-plain text String.[] h = refl
split_marked-plain text (String.◌∷◌ c s) h = rw h refl

-- A text without a target, which holds none.
abbrev answer : Option String → String → Command
answer target body = record {
  name = "ans";
  args = String.[];
  body = body;
  target = target;
  unknown = false;
}

parsed_answer :
    (body : String) → parse_command (append "/ans " body) ≡ some (reply_command "ans" (tail body))
unfolding parse_command command_of is_space_code
parsed_answer body = elim (Bool-cases (is_blank body)) [
  | inl blank ↦ rw blank refl
  | inr more ↦ rw more refl
]

parsed_plain :
    (body : String)
    → strip body ≡ body
    → starts_with 35 body ≡ false
    → parse_command (append "/ans " body) ≡ some (answer none body)
unfolding reply_command split_target
parsed_plain body h plain =
    parsed_answer body
    ∙ ap (λ (l : Option String × String). some (answer l.0 l.1))
        (ap split_target (reply_body-tail body h)
          ∙ (ap (split_marked body) h ∙ split_marked-plain body body plain))

-- The command in front names its task.
command_first :
    (a : Db) (row : ImConnection) (message : InboundMessage) (id body : String) (task : RequestTask)
    → message.reply_to_public_id ≡ none
    → has_space id ≡ false
    → is_empty id ≡ false
    → find_task_by_public_id a row id ≡ some task
    → locate a row message (strip (reply_text "ans" id body))
      ≡ at (strip (reply_text "ans" id body)) (some task) (some (answer (some id) (strip body)))
unfolding locate explicit_task
command_first a row message id body task fresh h e found =
    rw
      (
        parse_command-strip (reply_text "ans" id body)
            ∙ parse_command-reply_text "ans" id body (inl refl) h e,
        fresh,
        e,
        found,
      )
      refl

-- A name in front of a text.
target_first :
    (a : Db) (row : ImConnection) (message : InboundMessage) (id body : String) (task : RequestTask)
    → message.reply_to_public_id ≡ none
    → has_space id ≡ false
    → find_task_by_public_id a row id ≡ some task
    → locate a row message (strip (target_text id body))
      ≡ at (strip body) (some task) (parse_command body)
unfolding locate explicit_task is_space_code parse_command
target_first a row message id body task fresh h found =
    ap (λ t. locate a row message (append "#" t)) (rstrip-tail id body h)
    ∙ rw (fresh, target_id id body h, target_rest id body h, found)
        (ap (at (strip body) (some task)) (parse_command-strip body))

-- What a command `/ans` does to a task.
staged : InboundEnv → ImConnection → RequestTask → String → Db → Result Handled
staged env row task body a = ok (stage_draft env row (some task) final_kind body a)

staged_first :
    (env : InboundEnv) (row : ImConnection) (message : InboundMessage) (id body : String)
    (task : RequestTask) (a : Db)
    → message.text ≡ reply_text "ans" id body
    → message.reply_to_public_id ≡ none
    → has_space id ≡ false
    → is_empty id ≡ false
    → find_task_by_public_id a row id ≡ some task
    → submit_task_reply env row message a ≡ staged env row task (strip body) a
unfolding submit_task_reply act_on handle_command staged is_space_code locate explicit_task
staged_first env row message id body task a same fresh h e found =
    rw same
      (ap (λ l. act_on env row l a) (command_first a row message id body task fresh h e found))

staged_second :
    (env : InboundEnv) (row : ImConnection) (message : InboundMessage) (id body : String)
    (task : RequestTask) (a : Db)
    → message.text ≡ target_text id (append "/ans " body)
    → message.reply_to_public_id ≡ none
    → has_space id ≡ false
    → strip body ≡ body
    → starts_with 35 body ≡ false
    → find_task_by_public_id a row id ≡ some task
    → submit_task_reply env row message a ≡ staged env row task body a
unfolding submit_task_reply act_on handle_command staged is_space_code locate explicit_task
staged_second env row message id body task a same fresh h trimmed plain found =
    let text = append "/ans " body in
    rw same (
      ap (λ l. act_on env row l a)
        (target_first a row message id text task fresh h found
          ∙ ap (at (strip text) (some task)) (parsed_plain body trimmed plain)))

-- For a task that the connection's owner has, a message that replies to no other does the same
-- whether it puts /ans in front of the task's ID or the ID in front of /ans, where the ID is not
-- empty and has no spaces, and the answer is stripped and does not start with #.
pub submit_task_reply-either :
    (env : InboundEnv) (row : ImConnection) (first second : InboundMessage) (id body : String)
    (task : RequestTask) (a : Db)
    → first.text ≡ reply_text "ans" id body
    → second.text ≡ target_text id (append "/ans " body)
    → first.reply_to_public_id ≡ none
    → second.reply_to_public_id ≡ none
    → has_space id ≡ false
    → is_empty id ≡ false
    → strip body ≡ body
    → starts_with 35 body ≡ false
    → find_task_by_public_id a row id ≡ some task
    → submit_task_reply env row first a ≡ submit_task_reply env row second a
submit_task_reply-either env row first second id body task a first_text second_text fresh fresh2 h e
      trimmed plain found =
    staged_first env row first id body task a first_text fresh h e found
    ∙ (ap (λ b. staged env row task b a) trimmed
        ∙ sym
            (staged_second env row second id body task a second_text fresh2 h trimmed plain found))

-- A message /ans or /res with an ID that is not empty, has no spaces and names no task of the
-- connection's owner is not handled and changes nothing, where it replies to no other message.
pub submit_task_reply-refused :
    (env : InboundEnv) (row : ImConnection) (message : InboundMessage) (name id body : String)
    (a : Db)
    → (name ≡ "ans") ⊎ (name ≡ "res")
    → message.text ≡ reply_text name id body
    → message.reply_to_public_id ≡ none
    → has_space id ≡ false
    → is_empty id ≡ false
    → find_task_by_public_id a row id ≡ none
    → submit_task_reply env row message a ≡ ok (unhandled_with [] a)
unfolding submit_task_reply act_on locate explicit_task
submit_task_reply-refused env row message name id body a known same fresh h e absent =
    if-holds (λ r. r ≡ ok (unhandled_with [] a)) (is_empty (strip message.text)) refl
      (rw
        (
          parse_command-strip message.text
              ∙ (ap parse_command same ∙ parse_command-reply_text name id body known h e),
          fresh,
          e,
          absent,
        )
        refl)
