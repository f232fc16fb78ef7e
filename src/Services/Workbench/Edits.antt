-- ===== src/Services/Workbench/Edits.antt =====
-- app/services/task_service.py: changes of a stored draft, and the submission of a reply.
use human_llm_gateway.Prelude.{
  ℕ, Bool, true, false, ◌&&◌, not, Option, none, some, List, [], ◌∷◌, ◌==◌, is_none,
}
use human_llm_gateway.Domain.Enums.{
  is_editing, submitted, not_found, conflict, reply_submitted, reply_rejected_late, ActorType,
}
use human_llm_gateway.Model.Task.{RequestTask, TaskDraft, TaskInboxState}
use human_llm_gateway.Model.Account.{User}
use human_llm_gateway.Model.Db.{Db}
use human_llm_gateway.Result.{Result, ok, ◌>>=◌, ◌>>◌, raise, raise_public, refuse_if, required}
use human_llm_gateway.Repositories.Tasks.{first_reply_wins}
use human_llm_gateway.Repositories.Drafts.{
  get_draft, update_draft_fields, mark_draft_state, delete_row, get_inbox_state,
}
use human_llm_gateway.Services.Delivery.{add_event}
use human_llm_gateway.Services.Governance.{audit}
use human_llm_gateway.Services.Workbench.{
  ReplyToolCall, ReplyDraft, Libraries, validate_reply_draft, assert_writable, draft_payload,
}

-- The draft of that task and that user, which was not submitted.
unfoldable pub own_draft : RequestTask → User → Option TaskDraft → Result TaskDraft
own_draft task owner none = raise not_found 404
own_draft task owner (some row) = do
  refuse_if (not (row.task_id == task.id && row.owner_user_id == owner.id)) (raise not_found 404)
  refuse_if (not (is_editing row.state)) (raise conflict 409)
  ok row

unfoldable pub matched : Bool × Db → Result Db
matched (true, db) = ok db
matched (false, db) = raise_public conflict 409 "draft_version_conflict"

unfoldable pub update_draft :
    Libraries → ℕ → RequestTask → User → ℕ → ReplyDraft → ℕ → Db → Result (TaskDraft × Db)
unfolding own_draft matched
update_draft libraries now task owner draft_id draft expected_version db = do
  assert_writable task owner
  validate_reply_draft libraries task draft false
  row ← own_draft task owner (get_draft db draft_id)
  stored ←
      matched (update_draft_fields now draft_id expected_version (draft_payload libraries draft) db)
  updated ← required (get_draft stored draft_id)
  ok (updated, stored)

unfoldable pub delete_draft : RequestTask → User → ℕ → Db → Result Db
unfolding own_draft
delete_draft task owner draft_id db = do
  assert_writable task owner
  row ← own_draft task owner (get_draft db draft_id)
  ok (delete_row row.id db)

acknowledged : Option TaskInboxState → Bool
acknowledged none = false
acknowledged (some inbox) = not (is_none inbox.tool_call_warning_acknowledged_at)

unfoldable pub assert_tool_call_warning_acknowledged :
    RequestTask → List ReplyToolCall → Db → Result (Unit {0})
unfolding acknowledged
assert_tool_call_warning_acknowledged task [] db = ok tt
assert_tool_call_warning_acknowledged task (call ∷ rest) db =
    refuse_if (not (acknowledged (get_inbox_state db task.id)))
      (raise_public conflict 409 "tool_call_warning_required")

unfoldable pub mark_source : ℕ → Option ℕ → Db → Db
mark_source now none db = db
mark_source now (some draft_id) db = (mark_draft_state now draft_id submitted db).1

-- The first valid reply is recorded; a late one leaves an event and a log entry, and the answer
-- `false`.
unfoldable pub after_submit : ℕ → RequestTask → User → Option ℕ → Bool × Db → Bool × Db
unfolding mark_source
after_submit now task owner source_draft_id (true, db) = (
  true,
  audit "task.reply_submitted" "request_task" task.id owner.id task.owner_user_id (
      mark_source now source_draft_id
        (add_event now task.id reply_submitted ActorType.user (some owner.id) db)),
)
after_submit now task owner source_draft_id (false, db) = (
  false,
  audit "task.reply_submitted" "request_task" task.id owner.id task.owner_user_id
      (add_event now task.id reply_rejected_late ActorType.user (some owner.id) db),
)

unfoldable pub submit_reply :
    Libraries → ℕ → RequestTask → User → ReplyDraft → Option ℕ → Db → Result (Bool × Db)
unfolding after_submit
submit_reply libraries now task owner draft source_draft_id db = do
  assert_writable task owner
  validate_reply_draft libraries task draft true
  assert_tool_call_warning_acknowledged task draft.tool_calls db
  ok (
      after_submit now task owner source_draft_id (
        first_reply_wins now task.id task.owner_user_id task.version (libraries.dump_reply draft)
          db))
