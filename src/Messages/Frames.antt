-- ===== src/Messages/Frames.antt =====
-- The rows that the steps of app/services/connection_service.py are compared on: the receipts, the
-- accounts, and the tasks of other users.
use text.Mathlib.Text.{◌==◌ as str_eq}
use human_llm_gateway.Prelude.{
  ℕ, ◌≡◌, ◌⊎◌, refl, ap, String, Bool, true, false, not, Option, none, some, List, ◌==◌, inl, inr,
  arith, is_empty, if-holds,
}
use human_llm_gateway.Domain.Enums.{waiting_human}
use human_llm_gateway.Model.Task.{RequestTask, TaskDraft}
use human_llm_gateway.Model.Account.{User, AuthSession, ApiKey}
use human_llm_gateway.Model.Connection.{ImConnection, InboundReceipt, ConnectorOutbox}
use human_llm_gateway.Model.Db.{Db}
use human_llm_gateway.Result.{Result, Returns, Returns->>=}
use human_llm_gateway.Table.Rows.{select_where, find_where}
use human_llm_gateway.Table.Selects.{select-update}
use human_llm_gateway.Repositories.Tasks.{first_reply_wins, reply_condition, reply_values}
use human_llm_gateway.Repositories.Drafts.{mark_draft_state, get_active_draft}
use human_llm_gateway.Repositories.Outbox.{row_of}
use human_llm_gateway.Commands.Syntax.{Command}
use human_llm_gateway.Services.Workbench.{ReplyDraft}
use human_llm_gateway.Services.Delivery.{add_event, is_outbox_platform}
use human_llm_gateway.Services.Inbound.{InboundEnv, Handled}
use human_llm_gateway.Services.Inbound.Locate.{Located, refused, at}
use human_llm_gateway.Services.Inbound.Staging.{
  StageKind, reasoning_kind, final_kind, editable, stage_on, stage_draft, after_reply, submit_valid,
  submit_draft, validate_im_reply, stored_reply, stored_calls, has_content, commit_active,
  commit_draft, enqueue_on, enqueue_outbound_payload, dispatch_outbound,
}
use human_llm_gateway.Services.Inbound.Handler.{
  is_int, is_file_format, page_of, format_of, send_page, send_file, handle_page_command,
  handle_file_command, handle_command, plain_reply, reply_plainly, act_on,
}

-- The tasks of the users who do not own the connection.
abbrev pub foreign_tasks : ImConnection → Db → List RequestTask
foreign_tasks row db = select_where (λ t. not (t.owner_user_id == row.owner_user_id)) db.tasks

-- The rows that no step of the handler writes.
pub record Frame : Type 0 where
  pub receipts : List InboundReceipt
  pub users : List User
  pub sessions : List AuthSession
  pub api_keys : List ApiKey
  pub connections : List ImConnection
  pub foreign : List RequestTask

abbrev pub frame : ImConnection → Db → Frame
frame row db = record {
  receipts = db.receipts;
  users = db.users;
  sessions = db.sessions;
  api_keys = db.api_keys;
  connections = db.connections;
  foreign = foreign_tasks row db;
}

-- The tasks are as they were, or one reply was stored.
abbrev pub Replied : Db → Db → Type 0
Replied a b =
    (b.tasks ≡ a.tasks)
    ⊎ ((now : ℕ) × (i : ℕ) × (o : ℕ) × (v : ℕ) × (payload : String) × (b.tasks
          ≡ (first_reply_wins now i o v payload a).1.tasks))

abbrev pub Keeps : ImConnection → Db → Db → Type 0
Keeps row a b = (frame row b ≡ frame row a) × Replied a b

-- A task of the connection's owner, where there is one.
abbrev pub owned : ImConnection → Option RequestTask → Bool
owned row none = true
owned row (some task) = task.owner_user_id == row.owner_user_id

editable-Keeps :
    (env : InboundEnv) (row : ImConnection) (task : RequestTask) (kind : StageKind) (body : String)
    (found : Option TaskDraft) (a : Db)
    → Keeps row a (stage_on env kind body (editable env task found a))
editable-Keeps env row task kind body none a = (refl, inl refl)
editable-Keeps env row task kind body (some draft) a = (refl, inl refl)

stage_draft-Keeps :
    (env : InboundEnv) (row : ImConnection) (task : Option RequestTask) (kind : StageKind)
    (body : String) (a : Db)
    → Keeps row a (stage_draft env row task kind body a).db
unfolding stage_draft
stage_draft-Keeps env row none kind body a = (refl, inl refl)
stage_draft-Keeps env row (some task) kind body a =
    if-holds (λ (h : Handled). Keeps row a h.db) (is_empty body) (refl, inl refl)
      (editable-Keeps env row task kind body (get_active_draft a task.id) a)

-- A reply updates a task of the connection's owner.
reply-foreign :
    (row : ImConnection) (task : RequestTask) (now version : ℕ) (payload : String) (a : Db)
    → owned row (some task) ≡ true
    → foreign_tasks row (first_reply_wins now task.id task.owner_user_id version payload a).1
      ≡ foreign_tasks row a
unfolding first_reply_wins
reply-foreign row task now version payload a own =
    select-update (λ t. not (t.owner_user_id == row.owner_user_id))
      (reply_condition waiting_human task.id task.owner_user_id version) (reply_values payload now)
      a.tasks (λ t met. ground arith) (λ t met. ground arith)

after_reply-Keeps :
    (env : InboundEnv) (row : ImConnection) (task : RequestTask) (source : Option ℕ) (x : Bool × Db)
    (a : Db)
    → Keeps row a x.1
    → Keeps row a (after_reply env row task source x).db
unfolding after_reply add_event mark_draft_state
after_reply-Keeps env row task none (true, b) a h = h
after_reply-Keeps env row task (some draft_id) (true, b) a h = h
after_reply-Keeps env row task source (false, b) a h = h

submit_valid-Keeps :
    (env : InboundEnv) (row : ImConnection) (task : RequestTask) (draft : ReplyDraft)
    (source : Option ℕ) (a : Db) (valid : Bool)
    → owned row (some task) ≡ true
    → Keeps row a (submit_valid env row task draft source a valid).db
unfolding first_reply_wins
submit_valid-Keeps env row task draft source a true own =
    after_reply-Keeps env row task source _ a (
      ap (λ tasks. record (frame row a) { foreign = tasks })
          (reply-foreign row task env.now task.version (env.libraries.dump_reply draft) a own),
      inr (
        env.now,
        task.id,
        task.owner_user_id,
        task.version,
        env.libraries.dump_reply draft,
        refl,
      ),
    )
submit_valid-Keeps env row task draft source a false own = (refl, inl refl)

-- What a call returns, keeps.
abbrev pub KeepsResult : ImConnection → Db → Result Handled → Type 0
KeepsResult row a call = Returns (λ (h : Handled). Keeps row a h.db) call

submit_draft-Keeps :
    (env : InboundEnv) (row : ImConnection) (task : RequestTask) (draft : ReplyDraft)
    (source : Option ℕ) (a : Db)
    → owned row (some task) ≡ true
    → KeepsResult row a (submit_draft env row task draft source a)
unfolding submit_draft
submit_draft-Keeps env row task draft source a own =
    Returns->>= _ (validate_im_reply env task draft a) _
      (λ valid. submit_valid-Keeps env row task draft source a valid own)

commit_active-Keeps :
    (env : InboundEnv) (row : ImConnection) (task : RequestTask) (found : Option TaskDraft) (a : Db)
    → owned row (some task) ≡ true
    → KeepsResult row a (commit_active env row task found a)
commit_active-Keeps env row task none a own = (refl, inl refl)
commit_active-Keeps env row task (some draft) a own =
    Returns->>= _ (stored_calls env draft) _ (λ calls.
      if-holds (KeepsResult row a) (has_content (stored_reply draft calls))
        (submit_draft-Keeps env row task (stored_reply draft calls) (some draft.id) a own)
        (refl, inl refl))

commit_draft-Keeps :
    (env : InboundEnv) (row : ImConnection) (task : Option RequestTask) (a : Db)
    → owned row task ≡ true
    → KeepsResult row a (commit_draft env row task a)
unfolding commit_draft
commit_draft-Keeps env row none a own = (refl, inl refl)
commit_draft-Keeps env row (some task) a own =
    commit_active-Keeps env row task (get_active_draft a task.id) a own

enqueue_on-Keeps :
    (env : InboundEnv) (row : ImConnection) (task_id : ℕ) (payload : String)
    (found : Option ConnectorOutbox) (a : Db)
    → Keeps row a (enqueue_on env row.id task_id payload found a)
enqueue_on-Keeps env row task_id payload none a = (refl, inl refl)
enqueue_on-Keeps env row task_id payload (some existing) a = (refl, inl refl)

dispatch_outbound-Keeps :
    (env : InboundEnv) (row : ImConnection) (task : RequestTask) (payload : String) (a : Db)
    → Keeps row a (dispatch_outbound env row task payload a)
unfolding dispatch_outbound enqueue_outbound_payload
dispatch_outbound-Keeps env row task payload a =
    if-holds (Keeps row a) (is_outbox_platform row.platform)
      (enqueue_on-Keeps env row task.id payload (find_where (row_of row.id task.id) a.outbox) a)
      (refl, inl refl)

handle_page_command-Keeps :
    (env : InboundEnv) (row : ImConnection) (task : Option RequestTask) (command : Command) (a : Db)
    → Keeps row a (handle_page_command env row task command a).db
unfolding handle_page_command send_page
handle_page_command-Keeps env row none command a = (refl, inl refl)
handle_page_command-Keeps env row (some task) command a =
    if-holds (λ (h : Handled). Keeps row a h.db) (is_int env.is_decimal (page_of command))
      (dispatch_outbound-Keeps env row task (env.page_json task (page_of command)) a)
      (refl, inl refl)

handle_file_command-Keeps :
    (env : InboundEnv) (row : ImConnection) (task : Option RequestTask) (command : Command) (a : Db)
    → Keeps row a (handle_file_command env row task command a).db
unfolding handle_file_command send_file
handle_file_command-Keeps env row none command a = (refl, inl refl)
handle_file_command-Keeps env row (some task) command a =
    if-holds (λ (h : Handled). Keeps row a h.db) (is_file_format (format_of command))
      (dispatch_outbound-Keeps env row task (env.file_json task (format_of command)) a)
      (refl, inl refl)

handle_command-Keeps :
    (env : InboundEnv) (row : ImConnection) (task : Option RequestTask) (command : Command) (a : Db)
    → owned row task ≡ true
    → KeepsResult row a (handle_command env row task command a)
unfolding handle_command
handle_command-Keeps env row task command a own =
    let P = KeepsResult row a in
    let named = str_eq command.name in
    if-holds P command.unknown (refl, inl refl)
      (if-holds P (named "res") (stage_draft-Keeps env row task reasoning_kind command.body a) (
        if-holds P (named "ans") (stage_draft-Keeps env row task final_kind command.body a) (
          if-holds P (named "commit") (commit_draft-Keeps env row task a own) (
            if-holds P (named "page") (handle_page_command-Keeps env row task command a) (
              if-holds P (named "file") (handle_file_command-Keeps env row task command a)
                (refl, inl refl))))))

reply_plainly-Keeps :
    (env : InboundEnv) (row : ImConnection) (text : String) (task : Option RequestTask) (a : Db)
    → owned row task ≡ true
    → KeepsResult row a (reply_plainly env row text task a)
reply_plainly-Keeps env row text none a own = (refl, inl refl)
reply_plainly-Keeps env row text (some task) a own =
    if-holds (KeepsResult row a) (is_empty text) (refl, inl refl)
      (submit_draft-Keeps env row task (plain_reply text) none a own)

abbrev pub owned_located : ImConnection → Located → Bool
owned_located row refused = true
owned_located row (at text task command) = owned row task

pub act_on-Keeps :
    (env : InboundEnv) (row : ImConnection) (located : Located) (a : Db)
    → owned_located row located ≡ true
    → KeepsResult row a (act_on env row located a)
unfolding act_on
act_on-Keeps env row refused a own = (refl, inl refl)
act_on-Keeps env row (at text task (some command)) a own =
    handle_command-Keeps env row task command a own
act_on-Keeps env row (at text task none) a own = reply_plainly-Keeps env row text task a own
