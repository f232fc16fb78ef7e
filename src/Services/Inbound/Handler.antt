-- ===== src/Services/Inbound/Handler.antt =====
-- app/services/connection_service.py: `_handle_inbound` with `_submit_task_reply` and
-- `_handle_command`. The connection is the row that the caller loaded.
use Prim.Native.Char.{Char, code}
use text.Mathlib.Text.{◌==◌ as str_eq}
use human_llm_gateway.Prelude.{
  ℕ, ◌+◌, String, Bool, true, false, ◌&&◌, ◌||◌, not, Option, none, some, List, [], ◌==◌, ltb, leb,
  is_empty, strip, if◌then◌else◌,
}
use human_llm_gateway.Domain.Enums.{InboundResult, accepted, duplicate, unbound, unhandled, bound}
use human_llm_gateway.Model.Task.{RequestTask}
use human_llm_gateway.Model.Connection.{ImConnection, InboundReceipt}
use human_llm_gateway.Model.Db.{Db, AuditEntry}
use human_llm_gateway.Result.{Result, ok, ◌>>=◌}
use human_llm_gateway.Repositories.Tasks
use human_llm_gateway.Repositories.Receipts.{
  new_receipt, record_receipt, count_inbound_receipts, count_inbound_receipts_since,
  bind_external_user, store_result,
}
use human_llm_gateway.Commands.Syntax.{Command, lower}
use human_llm_gateway.Services.Workbench.{ReplyDraft}
use human_llm_gateway.Services.Inbound.{
  InboundMessage, InboundEnv, Handled, Feedback, bind_welcome, no_waiting_task, unhandled_with,
  is_given, send_feedback, add_audit,
}
use human_llm_gateway.Services.Inbound.Locate.{Located, refused, at, locate, text_of_option}
use human_llm_gateway.Services.Inbound.Staging.{
  reasoning_kind, final_kind, stage_draft, submit_draft, commit_draft, dispatch_outbound,
}

-- The digits that `int` reads behind a sign: one underscore may stand between two of them.
abbrev pub digits_from : (Char → Bool) → Bool → String → Bool
digits_from is_decimal after_digit String.[] = after_digit
digits_from is_decimal after_digit (String.◌∷◌ c s) =
    let next = digits_from is_decimal (not (code c == 95)) s in
    (is_decimal c || (code c == 95 && after_digit)) && next

abbrev pub count_decimals : (Char → Bool) → String → ℕ
count_decimals is_decimal String.[] = 0
count_decimals is_decimal (String.◌∷◌ c s) =
    let rest = count_decimals is_decimal s in if is_decimal c then 1 + rest else rest

abbrev pub unsigned : String → String
unsigned String.[] = String.[]
unsigned (String.◌∷◌ c s) = if code c == 43 || code c == 45 then s else String.◌∷◌ c s

-- Whether `int` reads a text that has no spaces; it refuses more than 4300 digits.
unfoldable pub is_int : (Char → Bool) → String → Bool
is_int is_decimal text =
    digits_from is_decimal false (unsigned text) && leb (count_decimals is_decimal text) 4300

abbrev pub plain_answer : InboundResult → Db → Handled
plain_answer result db = record { result = result; task_id = none; feedback = []; db = db }

abbrev pub page_of : Command → String
page_of command = if is_empty command.args then "1" else command.args

-- app/services/outbound_service.py, up to the package's text; so is the next.
unfoldable pub send_page : InboundEnv → ImConnection → RequestTask → String → Db → Handled
send_page env row task page db =
    plain_answer accepted (dispatch_outbound env row task (env.page_json task page) db)

unfoldable pub send_file : InboundEnv → ImConnection → RequestTask → String → Db → Handled
send_file env row task fmt db =
    plain_answer accepted (dispatch_outbound env row task (env.file_json task fmt) db)

unfoldable pub handle_page_command :
    InboundEnv → ImConnection → Option RequestTask → Command → Db → Handled
handle_page_command env row none command db = unhandled_with [] db
handle_page_command env row (some task) command db =
    if is_int env.is_decimal (page_of command)
    then send_page env row task (page_of command) db
    else unhandled_with [] db

-- No character but the capitals of these names has one of their small letters as its `lower`.
abbrev pub is_file_format : String → Bool
is_file_format fmt = str_eq fmt "txt" || str_eq fmt "md"

abbrev pub format_of : Command → String
format_of command = lower (if is_empty command.args then "txt" else command.args)

unfoldable pub handle_file_command :
    InboundEnv → ImConnection → Option RequestTask → Command → Db → Handled
handle_file_command env row none command db = unhandled_with [] db
handle_file_command env row (some task) command db =
    if is_file_format (format_of command)
    then send_file env row task (format_of command) db
    else unhandled_with [] db

unfoldable pub handle_command :
    InboundEnv → ImConnection → Option RequestTask → Command → Db → Result Handled
handle_command env row task command db =
    if command.unknown
    then ok (unhandled_with [] db)
    else if str_eq command.name "res"
    then ok (stage_draft env row task reasoning_kind command.body db)
    else if str_eq command.name "ans"
    then ok (stage_draft env row task final_kind command.body db)
    else if str_eq command.name "commit"
    then commit_draft env row task db
    else if str_eq command.name "page"
    then ok (handle_page_command env row task command db)
    else if str_eq command.name "file"
    then ok (handle_file_command env row task command db)
    else ok (unhandled_with [] db)

-- The receipts counted since the connection was authenticated, with the one just written.
abbrev pub receipts_of_row : Db → ImConnection → Option ℕ → ℕ
receipts_of_row db row none = count_inbound_receipts db row.id
receipts_of_row db row (some since) = count_inbound_receipts_since db row.id since

abbrev pub is_first_message : Db → ImConnection → String → Bool
is_first_message db row text =
    not (is_empty text) && receipts_of_row db row row.last_authenticated_at == 1

abbrev pub no_task_feedback : Db → ImConnection → String → Feedback
no_task_feedback db row text =
    if is_first_message db row text then bind_welcome else no_waiting_task

abbrev pub plain_reply : String → ReplyDraft
plain_reply text = record { reasoning = none; tool_calls = []; final_text = some text }

abbrev pub reply_plainly :
    InboundEnv → ImConnection → String → Option RequestTask → Db → Result Handled
reply_plainly env row text none db =
    ok (unhandled_with (send_feedback env row (no_task_feedback db row text)) db)
reply_plainly env row text (some task) db =
    let sent = submit_draft env row task (plain_reply text) none db in
    if is_empty text
    then ok (unhandled_with (send_feedback env row (no_task_feedback db row text)) db)
    else sent

unfoldable pub act_on : InboundEnv → ImConnection → Located → Db → Result Handled
act_on env row refused db = ok (unhandled_with [] db)
act_on env row (at text task (some command)) db = handle_command env row task command db
act_on env row (at text task none) db = reply_plainly env row text task db

unfoldable pub submit_task_reply : InboundEnv → ImConnection → InboundMessage → Db → Result Handled
submit_task_reply env row message db =
    let text = strip message.text in
    let sent = act_on env row (locate db row message text) db in
    if is_empty text then ok (unhandled_with [] db) else sent

abbrev pub reply_audit : RequestTask → AuditEntry
reply_audit task = record {
  action = "task.reply_submitted";
  resource_type = "request_task";
  resource_id = task.id;
  actor_user_id = none;
  owner_user_id = some task.owner_user_id;
}

abbrev pub audit_found : Option RequestTask → Db → Db
audit_found none db = db
audit_found (some task) db = add_audit (reply_audit task) db

-- `if result is ACCEPTED and receipt.task_id`
abbrev pub audit_accepted : InboundResult → Option ℕ → Db → Db
audit_accepted accepted (some task_id) db =
    let audited = audit_found (Tasks.get db task_id) db in if task_id == 0 then db else audited
audit_accepted _ _ db = db

-- The result of the handler, what it sends back, and the database.
pub record Answer : Type 0 where
  pub result : InboundResult
  pub feedback : List Feedback
  pub db : Db

-- The result on the receipt, at the end of the handler.
abbrev pub finish : InboundEnv → Handled → Answer
finish env handled = record {
  result = handled.result;
  feedback = handled.feedback;
  db =
      store_result env.receipt_id handled.result handled.task_id
        (audit_accepted handled.result handled.task_id handled.db);
}

abbrev pub binding_audit : ImConnection → AuditEntry
binding_audit row = record {
  action = "connection.bound";
  resource_type = "im_connection";
  resource_id = row.id;
  actor_user_id = none;
  owner_user_id = some row.owner_user_id;
}

abbrev pub not_expired : ℕ → Option ℕ → Bool
not_expired now none = true
not_expired now (some expires_at) = ltb now expires_at

abbrev pub binding_ok : InboundEnv → ImConnection → InboundMessage → Bool
binding_ok env row message =
    is_given message.binding_code
    && (is_given row.binding_code_hash
        && (env.verify_code (text_of_option message.binding_code)
              (text_of_option row.binding_code_hash)
            && not_expired env.now row.binding_code_expires_at))

unfoldable pub bind : InboundEnv → ImConnection → InboundMessage → Db → Handled
bind env row message db =
    if binding_ok env row message
    then plain_answer bound (
        add_audit (binding_audit row)
          (bind_external_user env.now row.id message.sender_external_id db))
    else plain_answer unbound db

-- The sender of a bound connection; an empty sender is not compared.
abbrev pub is_stranger : String → InboundMessage → Bool
is_stranger user message =
    not (is_empty message.sender_external_id) && not (str_eq message.sender_external_id user)

unfoldable pub after_receipt :
    InboundEnv → ImConnection → InboundMessage → Option String → Db → Result Handled
after_receipt env row message none db = ok (bind env row message db)
after_receipt env row message (some user) db =
    let sent = submit_task_reply env row message db in
    if is_stranger user message then ok (plain_answer unbound db) else sent

abbrev pub receipt_for : InboundEnv → ImConnection → InboundMessage → InboundReceipt
receipt_for env row message =
    new_receipt env.now env.receipt_id row.id message.external_message_id
      (env.fingerprint row.id message.sender_external_id)
      (env.payload_hash message.sender_external_id message.text message.reply_to_public_id) accepted

abbrev pub answered : InboundResult → Db → Answer
answered result db = record { result = result; feedback = []; db = db }

unfoldable pub handle_new :
    InboundEnv → ImConnection → InboundMessage → Option (InboundReceipt × Db) → Db → Result Answer
handle_new env row message none db = ok (answered duplicate db)
handle_new env row message (some (receipt, received)) db = do
  handled ← after_receipt env row message row.bound_external_user_id received
  ok (finish env handled)

unfoldable pub handle_inbound : InboundEnv → ImConnection → InboundMessage → Db → Result Answer
handle_inbound env row message db =
    let result = handle_new env row message (record_receipt (receipt_for env row message) db) db in
    if is_empty message.external_message_id then ok (answered unhandled db) else result
