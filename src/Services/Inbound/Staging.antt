-- ===== src/Services/Inbound/Staging.antt =====
-- app/services/connection_service.py: `/ans` and `/res` stage a draft, `/commit` and a plain text
-- submit a reply; app/services/outbound_service.py: the package that `/page` and `/file` put into
-- the outbox.
use human_llm_gateway.Prelude.{
  ℕ, ◌+◌, String, Bool, true, false, ◌||◌, Option, none, some, List, [], ◌∷◌, ◌++◌, ◌==◌, is_empty,
  if◌then◌else◌,
}
use human_llm_gateway.Prelude.Json.{Json}
use human_llm_gateway.Prelude.Text.{text_length}
use human_llm_gateway.Domain.Enums.{
  accepted, late, manual, submitted, pending, reply_submitted, reply_rejected_late, ActorType,
}
use human_llm_gateway.Model.Task.{RequestTask, TaskDraft}
use human_llm_gateway.Model.Connection.{ImConnection, ConnectorOutbox}
use human_llm_gateway.Model.Db.{Db}
use human_llm_gateway.Result.{Result, ok, err, domain, value_error, ◌>>=◌, ◌>>◌}
use human_llm_gateway.Table.Rows.{update_where, find_where}
use human_llm_gateway.Repositories.Tasks.{first_reply_wins}
use human_llm_gateway.Repositories.Drafts.{get_active_draft, create_draft, mark_draft_state}
use human_llm_gateway.Repositories.Outbox.{row_of, new_outbox_row}
use human_llm_gateway.Services.Delivery.{add_event, is_outbox_platform}
use human_llm_gateway.Services.Workbench.{ReplyToolCall, ReplyDraft, validate_reply_draft}
use human_llm_gateway.Services.Workbench.Edits.{assert_tool_call_warning_acknowledged}
use human_llm_gateway.Services.Inbound.{
  InboundEnv, Handled, Feedback, staged_reasoning, staged_answer, reply_sent, tools_required,
  unhandled_with, is_given, send_feedback, is_falsy,
}

pub data StageKind : Type 0 where
  reasoning_kind final_kind : StageKind

abbrev pub staged_values : ℕ → StageKind → String → TaskDraft → TaskDraft
staged_values now reasoning_kind body d = record d {
  reasoning_text = some body;
  version = d.version + 1;
  updated_at = now;
}
staged_values now final_kind body d = record d {
  final_text = some body;
  version = d.version + 1;
  updated_at = now;
}

abbrev pub staged_feedback : StageKind → String → Feedback
staged_feedback reasoning_kind body = staged_reasoning (text_length body)
staged_feedback final_kind body = staged_answer (text_length body)

-- The draft that is edited, or a new one with nothing in it.
abbrev pub editable : InboundEnv → RequestTask → Option TaskDraft → Db → TaskDraft × Db
editable env task (some draft) db = (draft, db)
editable env task none db =
    let draft =
      create_draft env.now env.draft_id task.id task.owner_user_id manual
        (record { reasoning = none; tool_calls_json = "[]"; final_text = none }) in
    (draft, record db { drafts = draft ∷ db.drafts })

abbrev pub stage_on : InboundEnv → StageKind → String → TaskDraft × Db → Db
stage_on env kind body (draft, db) = record db {
  drafts = update_where (λ d. d.id == draft.id) (staged_values env.now kind body) db.drafts;
}

abbrev pub stage_body : InboundEnv → ImConnection → RequestTask → StageKind → String → Db → Handled
stage_body env row task kind body db = record {
  result = accepted;
  task_id = some task.id;
  feedback = send_feedback env row (staged_feedback kind body);
  db = stage_on env kind body (editable env task (get_active_draft db task.id) db);
}

unfoldable pub stage_draft :
    InboundEnv → ImConnection → Option RequestTask → StageKind → String → Db → Handled
stage_draft env row none kind body db = unhandled_with [] db
stage_draft env row (some task) kind body db =
    let staged = stage_body env row task kind body db in
    if is_empty body then unhandled_with [] db else staged

-- `except DomainError: return False`
abbrev pub caught : Result (Unit {0}) → Result Bool
caught (ok done) = ok true
caught (err (domain e)) = ok false
caught (err failure) = err failure

unfoldable pub validate_im_reply : InboundEnv → RequestTask → ReplyDraft → Db → Result Bool
validate_im_reply env task draft db = caught (
    validate_reply_draft env.libraries task draft true
    >> assert_tool_call_warning_acknowledged task draft.tool_calls db)

-- The draft that a committed reply came from.
abbrev pub mark_committed : ℕ → Option ℕ → Db → Db
mark_committed now none db = db
mark_committed now (some draft_id) db = (mark_draft_state now draft_id submitted db).1

-- What follows `first_reply_wins`.
unfoldable pub after_reply :
    InboundEnv → ImConnection → RequestTask → Option ℕ → Bool × Db → Handled
after_reply env row task source (true, db) = record {
  result = accepted;
  task_id = some task.id;
  feedback = send_feedback env row reply_sent;
  db =
      add_event env.now task.id reply_submitted ActorType.im (some row.owner_user_id)
        (mark_committed env.now source db);
}
after_reply env row task source (false, db) = record {
  result = late;
  task_id = some task.id;
  feedback = [];
  db = add_event env.now task.id reply_rejected_late ActorType.im (some row.owner_user_id) db;
}

-- A reply that passed its validation, or the hint about the tools.
abbrev pub submit_valid :
    InboundEnv → ImConnection → RequestTask → ReplyDraft → Option ℕ → Db → Bool → Handled
submit_valid env row task draft source db true = after_reply env row task source (
    first_reply_wins env.now task.id task.owner_user_id task.version
      (env.libraries.dump_reply draft) db)
submit_valid env row task draft source db false =
    unhandled_with (send_feedback env row tools_required) db

unfoldable pub submit_draft :
    InboundEnv → ImConnection → RequestTask → ReplyDraft → Option ℕ → Db → Result Handled
submit_draft env row task draft source db = do
  valid ← validate_im_reply env task draft db
  ok (submit_valid env row task draft source db valid)

-- `json.loads(row.tool_calls_json or "[]")`, with an empty list for a text that is no JSON.
abbrev pub validated : Option (List ReplyToolCall) → Result (List ReplyToolCall)
validated none = err value_error
validated (some calls) = ok calls

abbrev pub loaded_calls : InboundEnv → Option Json → Result (List ReplyToolCall)
loaded_calls env none = ok []
loaded_calls env (some value) =
    let calls = validated (env.validate_calls value) in if is_falsy value then ok [] else calls

unfoldable pub stored_calls : InboundEnv → TaskDraft → Result (List ReplyToolCall)
stored_calls env draft =
    loaded_calls env
      (env.libraries.loads (if is_empty draft.tool_calls_json then "[]" else draft.tool_calls_json))

abbrev pub has_calls : List ReplyToolCall → Bool
has_calls [] = false
has_calls (call ∷ calls) = true

abbrev pub stored_reply : TaskDraft → List ReplyToolCall → ReplyDraft
stored_reply draft calls = record {
  reasoning = draft.reasoning_text;
  tool_calls = calls;
  final_text = draft.final_text;
}

abbrev pub has_content : ReplyDraft → Bool
has_content reply =
    is_given reply.reasoning || (is_given reply.final_text || has_calls reply.tool_calls)

abbrev pub commit_reply :
    InboundEnv → ImConnection → RequestTask → TaskDraft → ReplyDraft → Db → Result Handled
commit_reply env row task draft reply db =
    let sent = submit_draft env row task reply (some draft.id) db in
    if has_content reply then sent else ok (unhandled_with [] db)

abbrev pub commit_found : InboundEnv → ImConnection → RequestTask → TaskDraft → Db → Result Handled
commit_found env row task draft db = do
  calls ← stored_calls env draft
  commit_reply env row task draft (stored_reply draft calls) db

abbrev pub commit_active :
    InboundEnv → ImConnection → RequestTask → Option TaskDraft → Db → Result Handled
commit_active env row task none db = ok (unhandled_with [] db)
commit_active env row task (some draft) db = commit_found env row task draft db

unfoldable pub commit_draft : InboundEnv → ImConnection → Option RequestTask → Db → Result Handled
commit_draft env row none db = ok (unhandled_with [] db)
commit_draft env row (some task) db = commit_active env row task (get_active_draft db task.id) db

-- `_enqueue_outbound_payload`: the row that is there is pending again, with the new package.
abbrev pub reset_values : ℕ → String → ConnectorOutbox → ConnectorOutbox
reset_values now payload o = record o {
  payload_json = payload;
  delivery_state = pending;
  available_at = now;
  last_error_code = none;
  updated_at = now;
}

abbrev pub enqueue_on : InboundEnv → ℕ → ℕ → String → Option ConnectorOutbox → Db → Db
enqueue_on env connection_id task_id payload (some existing) db = record db {
  outbox = update_where (λ o. o.id == existing.id) (reset_values env.now payload) db.outbox;
}
enqueue_on env connection_id task_id payload none db = record db {
  outbox = db.outbox ++ new_outbox_row env.now env.outbox_id connection_id task_id payload ∷ [];
}

unfoldable pub enqueue_outbound_payload : InboundEnv → ImConnection → RequestTask → String → Db → Db
enqueue_outbound_payload env row task payload db =
    enqueue_on env row.id task.id payload (find_where (row_of row.id task.id) db.outbox) db

unfoldable pub dispatch_outbound : InboundEnv → ImConnection → RequestTask → String → Db → Db
dispatch_outbound env row task payload db =
    if is_outbox_platform row.platform then enqueue_outbound_payload env row task payload db else db
