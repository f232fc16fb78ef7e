-- ===== src/Examples/Edits.antt =====
-- A draft that is saved, changed and submitted, and what the theorems say of it.
use human_llm_gateway.Prelude.{◌≡◌, ◌≢◌, refl, Bool, true, false, none, some, [], ◌∷◌, arith}
use human_llm_gateway.Prelude.Text.{is_space_code}
use human_llm_gateway.Prelude.Json.{obj, end}
use human_llm_gateway.Domain.Enums.{DraftSource}
use human_llm_gateway.Model.Task.{TaskDraft}
use human_llm_gateway.Model.Db.{Db}
use human_llm_gateway.Result.{Result, ok}
use human_llm_gateway.Repositories.Tasks.{first_reply_wins}
use human_llm_gateway.Repositories.Drafts.{
  create_draft, get_draft, update_active_draft_fields, update_draft_fields,
}
use human_llm_gateway.Services.Workbench.{
  ReplyDraft, Libraries, draft_payload, save_draft, catalog_for_task, assert_writable,
  validate_reply_draft, store_draft, create_manual_draft,
}
use human_llm_gateway.CallerTools.Validation.{validate_structural, validate_full}
use human_llm_gateway.CallerTools.Policy.{build_caller_tool_catalog}
use human_llm_gateway.Services.Workbench.Edits.{
  update_draft, submit_reply, assert_tool_call_warning_acknowledged,
}
use human_llm_gateway.Workbench.Drafts.{OneActive}
use human_llm_gateway.Workbench.Saving.{IsSaved, save_draft-IsSaved}
use human_llm_gateway.Workbench.Edits.{save, DraftStep-OneActive}
use human_llm_gateway.Workbench.Locking.{
  UniqueDrafts, IsOverwritten, update_draft-IsOverwritten, update_draft-once,
}
use human_llm_gateway.Workbench.Replies.{IsAccepted, submit_reply-IsAccepted, submit_reply-once}
use human_llm_gateway.Workbench.Final.{submit_reply-IsLast}
use human_llm_gateway.Lifecycle.Steps.{Reach, here, next, cancel}
use human_llm_gateway.Services.Inference
use human_llm_gateway.Examples.Results.{value_or}
use human_llm_gateway.Examples.Rows.{waiting, owner_with, db, db-IsAccounted}

abbrev pub libraries : Libraries
libraries = record {
  loads = λ s. some (obj end);
  schema_accepts = λ schema arguments. true;
  dump_calls = λ calls. "[]";
  dump_reply = λ draft. "reply";
}

abbrev pub draft : ReplyDraft
draft = record { reasoning = none; tool_calls = []; final_text = some "hello" }

abbrev no_row : TaskDraft
no_row = create_draft 0 0 0 0 DraftSource.manual (draft_payload libraries draft)

abbrev saving : Result (TaskDraft × Db)
saving = save_draft libraries 10 5 waiting (owner_with 1) draft db

abbrev saved : TaskDraft × Db
saved = value_or (no_row, db) saving

saving_ok : saving ≡ ok saved
unfolding save_draft assert_writable validate_reply_draft validate_structural store_draft
    update_active_draft_fields create_manual_draft
saving_ok = refl

pub db-OneActive : OneActive db
db-OneActive i = omega arith

save_draft-IsSaved_example :
    IsSaved 1
      (record { reasoning = none; tool_calls_json = "[]"; final_text = some "hello" })
      saved.0
      saved.1
unfolding is_space_code
save_draft-IsSaved_example =
    save_draft-IsSaved libraries 10 5 waiting (owner_with 1) draft db db-OneActive saving_ok

DraftStep-OneActive_example : OneActive saved.1
DraftStep-OneActive_example =
    DraftStep-OneActive (save libraries 10 5 waiting (owner_with 1) draft saved.0 saving_ok)
      db-OneActive

abbrev drafting : Db
drafting = record db { drafts = record no_row { id = 5; task_id = 1; owner_user_id = 7 } ∷ [] }

abbrev updating : Result (TaskDraft × Db)
updating = update_draft libraries 20 waiting (owner_with 1) 5 draft 1 drafting

abbrev updated : TaskDraft × Db
updated = value_or (no_row, db) updating

updating_ok : updating ≡ ok updated
unfolding update_draft assert_writable validate_reply_draft validate_structural get_draft
    update_draft_fields create_draft
updating_ok = refl

drafting-UniqueDrafts : UniqueDrafts drafting
drafting-UniqueDrafts i = ground arith

update_draft-IsOverwritten_example :
    IsOverwritten libraries 20 waiting (owner_with 1) 5 draft 1 drafting updated.0 updated.1
update_draft-IsOverwritten_example =
    update_draft-IsOverwritten libraries 20 waiting (owner_with 1) 5 draft 1 drafting
      drafting-UniqueDrafts updating_ok

update_draft-once_example :
    update_draft libraries 30 waiting (owner_with 1) 5 draft 1 updated.1 ≢ ok updated
update_draft-once_example =
    update_draft-once libraries 20 30 waiting waiting (owner_with 1) (owner_with 1) 5 draft draft 1
      drafting updated drafting-UniqueDrafts updating_ok

abbrev submitting : Result (Bool × Db)
submitting = submit_reply libraries 40 waiting (owner_with 1) draft (some 5) db

abbrev pub answered : Bool × Db
answered = value_or (false, db) submitting

pub submitting_ok : submitting ≡ ok (true, answered.1)
unfolding submit_reply assert_writable validate_reply_draft validate_full catalog_for_task
    build_caller_tool_catalog assert_tool_call_warning_acknowledged first_reply_wins
submitting_ok = refl

submit_reply-IsAccepted_example : IsAccepted libraries waiting (owner_with 1) draft db answered.1
submit_reply-IsAccepted_example =
    submit_reply-IsAccepted libraries 40 waiting (owner_with 1) draft (some 5) db
      db-IsAccounted.unique_tasks submitting_ok

abbrev again : Result (Bool × Db)
again = submit_reply libraries 50 waiting (owner_with 1) draft none answered.1

abbrev late : Bool × Db
late = value_or (true, db) again

again_ok : again ≡ ok late
unfolding submit_reply assert_writable validate_reply_draft validate_full catalog_for_task
    build_caller_tool_catalog assert_tool_call_warning_acknowledged
again_ok = refl

submit_reply-once_example : late.0 ≡ false
submit_reply-once_example =
    submit_reply-once libraries 40 50 waiting waiting (owner_with 1) (owner_with 1) draft draft
      (some 5) none db db-IsAccounted.unique_tasks submitting_ok refl again_ok

abbrev hung_up : Db
hung_up = (Inference.cancel_caller_disconnected 45 1 "caller_disconnected" answered.1).1

path : Reach answered.1 hung_up
path = next here (cancel 45 1 "caller_disconnected" refl)

abbrev too_late : Result (Bool × Db)
too_late = submit_reply libraries 50 waiting (owner_with 1) draft none hung_up

abbrev refused : Bool × Db
refused = value_or (true, db) too_late

too_late_ok : too_late ≡ ok refused
unfolding submit_reply assert_writable validate_reply_draft validate_full catalog_for_task
    build_caller_tool_catalog assert_tool_call_warning_acknowledged
too_late_ok = refl

submit_reply-IsLast_example : refused.0 ≡ false
submit_reply-IsLast_example =
    submit_reply-IsLast libraries 40 50 waiting waiting (owner_with 1) (owner_with 1) draft draft
      (some 5) none db db-IsAccounted submitting_ok path refl too_late_ok
