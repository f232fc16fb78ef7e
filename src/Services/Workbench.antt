-- ===== src/Services/Workbench.antt =====
-- app/services/task_service.py: drafts of a reply and its submission. The task and the user are the
-- rows that the caller loaded; the JSON functions and the schema validator are parameters.
pub mod Edits
use human_llm_gateway.Prelude.{
  ℕ, String, Bool, true, false, ◌&&◌, not, Option, none, some, List, [], ◌∷◌, ◌==◌, is_empty,
  is_none, map, stripped_option, if◌then◌else◌,
}
use human_llm_gateway.Prelude.Json.{Json, obj, Fields, end}
use human_llm_gateway.Domain.Enums.{
  TaskState, waiting_human, same_state, is_admin, is_editing, manual, submitted, not_found,
  forbidden, conflict, reply_submitted, reply_rejected_late, ActorType,
}
use human_llm_gateway.Model.Task.{RequestTask, TaskDraft, TaskInboxState}
use human_llm_gateway.Model.Account.{User}
use human_llm_gateway.Model.Db.{Db}
use human_llm_gateway.Result.{
  Result, ok, err, integrity_error, ◌>>=◌, ◌>>◌, raise, raise_public, refuse_if,
}
use human_llm_gateway.Repositories.Tasks.{first_reply_wins}
use human_llm_gateway.Repositories.Drafts.{
  DraftPayload, get_draft, is_active_draft, get_active_draft, update_active_draft_fields,
  create_draft, update_draft_fields, mark_draft_state, delete_row, get_inbox_state,
}
use human_llm_gateway.Table.Rows.{count_where}
use human_llm_gateway.Services.Delivery.{add_event}
use human_llm_gateway.Services.Governance.{audit}
use human_llm_gateway.CallerTools.Catalog.{CallerToolCatalog}
use human_llm_gateway.CallerTools.Policy.{build_caller_tool_catalog}
use human_llm_gateway.CallerTools.Validation.{ToolCall, validate_structural, validate_full}

-- app/domain/values.py
pub record ReplyToolCall : Type 0 where
  pub id : String
  pub name : String
  pub arguments : Fields

pub record ReplyDraft : Type 0 where
  pub reasoning : Option String
  pub tool_calls : List ReplyToolCall
  pub final_text : Option String

-- `loads` is `json.loads`, with `none` for the errors that it raises on a text.
pub record Libraries : Type 0 where
  pub loads : String → Option Json
  pub schema_accepts : Json → Json → Bool
  pub dump_calls : List ReplyToolCall → String
  pub dump_reply : ReplyDraft → String

-- `raw if isinstance(raw, dict) else {}`
abbrev pub payload_fields : Option Json → Fields
payload_fields (some (obj fields)) = fields
payload_fields _ = end

unfoldable pub catalog_for_task : Libraries → RequestTask → CallerToolCatalog
catalog_for_task libraries task =
    let text = if is_empty task.raw_payload_json then "{}" else task.raw_payload_json in
    build_caller_tool_catalog task.protocol (payload_fields (libraries.loads text))

-- `call.model_dump()`
abbrev pub tool_call_view : ReplyToolCall → ToolCall
tool_call_view call = record {
  id = some call.id;
  name = some call.name;
  arguments = some (obj call.arguments);
}

unfoldable pub validate_reply_draft :
    Libraries → RequestTask → ReplyDraft → Bool → Result (Unit {0})
validate_reply_draft libraries task draft strict =
    let catalog = catalog_for_task libraries task in
    let calls = map tool_call_view draft.tool_calls in
    if strict
    then validate_full libraries.schema_accepts catalog calls
    else validate_structural libraries.schema_accepts catalog calls

unfoldable pub assert_owner : RequestTask → User → Result (Unit {0})
assert_owner task user =
    refuse_if (not (is_admin user.role) && not (task.owner_user_id == user.id))
      (raise not_found 404)

unfoldable pub assert_editable : RequestTask → Result (Unit {0})
assert_editable task =
    refuse_if (not (same_state task.state waiting_human))
      (raise_public conflict 409 "task_already_resolved")

unfoldable pub assert_writable : RequestTask → User → Result (Unit {0})
unfolding assert_owner assert_editable
assert_writable task owner = do
  assert_owner task owner
  refuse_if (is_admin owner.role) (raise forbidden 403)
  refuse_if (not owner.is_active) (raise forbidden 403)
  assert_editable task

unfoldable pub draft_payload : Libraries → ReplyDraft → DraftPayload
draft_payload libraries draft = record {
  reasoning = stripped_option draft.reasoning;
  tool_calls_json = libraries.dump_calls draft.tool_calls;
  final_text = stripped_option draft.final_text;
}

unfoldable pub found_active : Option TaskDraft → Db → Result (TaskDraft × Db)
found_active none db = err integrity_error
found_active (some row) db = ok (row, db)

-- The partial unique index on the editing drafts of a task refuses a second one.
unfoldable pub create_manual_draft :
    ℕ → ℕ → RequestTask → User → DraftPayload → Db → Result (TaskDraft × Db)
unfolding found_active
create_manual_draft now draft_id task owner payload db =
    let row = create_draft now draft_id task.id owner.id manual payload in
    let updated = (update_active_draft_fields now task.id payload db).1 in
    if count_where (is_active_draft task.id) db.drafts == 0
    then ok (row, record db { drafts = row ∷ db.drafts })
    else found_active (get_active_draft updated task.id) updated

unfoldable pub saved_active :
    ℕ → ℕ → RequestTask → User → DraftPayload → Option TaskDraft → Db → Result (TaskDraft × Db)
saved_active now draft_id task owner payload none db =
    create_manual_draft now draft_id task owner payload db
saved_active now draft_id task owner payload (some row) db = ok (row, db)

-- An UPDATE that does not change exactly one row changes none, by the unique index.
unfoldable pub store_draft :
    ℕ → ℕ → RequestTask → User → DraftPayload → Bool × Db → Result (TaskDraft × Db)
unfolding saved_active
store_draft now draft_id task owner payload (true, db) =
    saved_active now draft_id task owner payload (get_active_draft db task.id) db
store_draft now draft_id task owner payload (false, db) =
    create_manual_draft now draft_id task owner payload db

unfoldable pub save_draft :
    Libraries → ℕ → ℕ → RequestTask → User → ReplyDraft → Db → Result (TaskDraft × Db)
save_draft libraries now draft_id task owner draft db = do
  assert_writable task owner
  validate_reply_draft libraries task draft false
  let payload = draft_payload libraries draft
  (row, stored) ←
      store_draft now draft_id task owner payload
        (update_active_draft_fields now task.id payload db)
  ok (row, audit "task.reply_submitted" "task_draft" row.id owner.id task.owner_user_id stored)
