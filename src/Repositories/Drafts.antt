-- ===== src/Repositories/Drafts.antt =====
-- app/repositories/tasks.py: the drafts of a task, and its inbox row. The primary key of a new
-- row is an argument.
use human_llm_gateway.Prelude.{
  ℕ, ◌+◌, String, Bool, ◌&&◌, ◌||◌, Option, none, some, List, [], ◌∷◌, ◌==◌, ltb, is_none,
  if◌then◌else◌,
}
use human_llm_gateway.Domain.Enums.{DraftSource, DraftState, editing, is_editing}
use human_llm_gateway.Model.Task.{TaskDraft, TaskInboxState}
use human_llm_gateway.Model.Db.{Db}
use human_llm_gateway.Table.Rows.{count_where, update_where, select_where, delete_where, find_where}

-- The texts of a draft, as `_draft_payload` makes them.
pub record DraftPayload : Type 0 where
  pub reasoning : Option String
  pub tool_calls_json : String
  pub final_text : Option String

-- `session.get(TaskDraft, draft_id)`
unfoldable pub get_draft : Db → ℕ → Option TaskDraft
get_draft db draft_id = find_where (λ d. d.id == draft_id) db.drafts

abbrev pub is_active_draft : ℕ → TaskDraft → Bool
is_active_draft task_id d = d.task_id == task_id && is_editing d.state

-- ORDER BY updated_at DESC, id DESC
abbrev pub is_newer : TaskDraft → TaskDraft → Bool
is_newer d e = ltb e.updated_at d.updated_at || (d.updated_at == e.updated_at && ltb e.id d.id)

abbrev pub newer_of : TaskDraft → Option TaskDraft → TaskDraft
newer_of d none = d
newer_of d (some e) = if is_newer e d then e else d

-- LIMIT 1
unfoldable pub newest : List TaskDraft → Option TaskDraft
newest [] = none
newest (d ∷ ds) = some (newer_of d (newest ds))

unfoldable pub get_active_draft : Db → ℕ → Option TaskDraft
unfolding newest
get_active_draft db task_id = newest (select_where (is_active_draft task_id) db.drafts)

abbrev pub draft_values : DraftPayload → ℕ → TaskDraft → TaskDraft
draft_values payload now d = record d {
  reasoning_text = payload.reasoning;
  tool_calls_json = payload.tool_calls_json;
  final_text = payload.final_text;
  version = d.version + 1;
  updated_at = now;
}

abbrev pub execute_drafts : (TaskDraft → Bool) → (TaskDraft → TaskDraft) → Db → Bool × Db
execute_drafts condition values db = (
  count_where condition db.drafts == 1,
  record db { drafts = update_where condition values db.drafts },
)

unfoldable pub update_active_draft_fields : ℕ → ℕ → DraftPayload → Db → Bool × Db
update_active_draft_fields now task_id payload =
    execute_drafts (is_active_draft task_id) (draft_values payload now)

unfoldable pub create_draft : ℕ → ℕ → ℕ → ℕ → DraftSource → DraftPayload → TaskDraft
create_draft now draft_id task_id owner_user_id source payload = record {
  id = draft_id;
  task_id = task_id;
  owner_user_id = owner_user_id;
  source = source;
  state = editing;
  reasoning_text = payload.reasoning;
  tool_calls_json = payload.tool_calls_json;
  final_text = payload.final_text;
  version = 1;
  updated_at = now;
}

abbrev pub version_condition : ℕ → ℕ → TaskDraft → Bool
version_condition draft_id expected_version d =
    d.id == draft_id && (is_editing d.state && d.version == expected_version)

unfoldable pub update_draft_fields : ℕ → ℕ → ℕ → DraftPayload → Db → Bool × Db
update_draft_fields now draft_id expected_version payload =
    execute_drafts (version_condition draft_id expected_version) (draft_values payload now)

abbrev pub editing_with_id : ℕ → TaskDraft → Bool
editing_with_id draft_id d = d.id == draft_id && is_editing d.state

abbrev pub state_values : DraftState → ℕ → TaskDraft → TaskDraft
state_values state now d = record d { state = state; version = d.version + 1; updated_at = now }

unfoldable pub mark_draft_state : ℕ → ℕ → DraftState → Db → Bool × Db
mark_draft_state now draft_id state =
    execute_drafts (editing_with_id draft_id) (state_values state now)

-- `session.delete(row)`
unfoldable pub delete_row : ℕ → Db → Db
delete_row draft_id db = record db { drafts = delete_where (λ d. d.id == draft_id) db.drafts }

-- `session.get(TaskInboxState, task_id)`
unfoldable pub get_inbox_state : Db → ℕ → Option TaskInboxState
get_inbox_state db task_id = find_where (λ s. s.task_id == task_id) db.inbox

abbrev pub store_inbox : TaskInboxState → Db → Db
store_inbox row db = record db {
  inbox = update_where (λ s. s.task_id == row.task_id) (λ s. row) db.inbox;
}

seen_later : ℕ → Option ℕ → TaskInboxState → TaskInboxState
seen_later now none s = record s { seen_at = now }
seen_later now (some event_id) s = record s { seen_at = now; last_seen_event_id = some event_id }

upsert_found : ℕ → ℕ → ℕ → Option ℕ → Option TaskInboxState → Db → Db
unfolding seen_later
upsert_found now task_id owner_user_id last_seen none db = record db {
  inbox =
      record {
        task_id = task_id;
        owner_user_id = owner_user_id;
        seen_at = now;
        last_seen_event_id = last_seen;
        tool_call_warning_acknowledged_at = none;
      }
      ∷ db.inbox;
}
upsert_found now task_id owner_user_id last_seen (some s) db =
    store_inbox (seen_later now last_seen s) db

unfoldable pub upsert_seen : ℕ → ℕ → ℕ → Option ℕ → Db → Db
unfolding upsert_found
upsert_seen now task_id owner_user_id last_seen db =
    upsert_found now task_id owner_user_id last_seen (get_inbox_state db task_id) db

acknowledge_found : ℕ → ℕ → ℕ → Option TaskInboxState → Db → Db
acknowledge_found now task_id owner_user_id none db = record db {
  inbox =
      record {
        task_id = task_id;
        owner_user_id = owner_user_id;
        seen_at = now;
        last_seen_event_id = none;
        tool_call_warning_acknowledged_at = some now;
      }
      ∷ db.inbox;
}
acknowledge_found now task_id owner_user_id (some s) db =
    if is_none s.tool_call_warning_acknowledged_at
    then store_inbox (record s { tool_call_warning_acknowledged_at = some now; seen_at = now }) db
    else db

unfoldable pub acknowledge_tool_call_warning : ℕ → ℕ → ℕ → Db → Db
unfolding acknowledge_found
acknowledge_tool_call_warning now task_id owner_user_id db =
    acknowledge_found now task_id owner_user_id (get_inbox_state db task_id) db
