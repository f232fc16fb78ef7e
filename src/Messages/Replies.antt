-- ===== src/Messages/Replies.antt =====
-- Replies from an instant messenger (`submit_draft`), and those after an answer of the workbench.
use human_llm_gateway.Prelude.{
  ℕ, ◌≤◌, ◌≡◌, refl, sym, ap, ◌∙◌, Bool, true, false, Option, none, some, arith,
}
use human_llm_gateway.Domain.Enums.{accepted, waiting_human, response_ready, same_state_sound}
use human_llm_gateway.Model.Task.{RequestTask}
use human_llm_gateway.Model.Account.{User}
use human_llm_gateway.Model.Connection.{ImConnection}
use human_llm_gateway.Model.Db.{Db}
use human_llm_gateway.Result.{
  Result, ok, err, domain, value_error, missing_row, integrity_error, >>=-eq-ok, ok-injective,
}
use human_llm_gateway.Table.Rows.{count_where, find_where}
use human_llm_gateway.Repositories.Tasks
use human_llm_gateway.Repositories.Drafts.{mark_draft_state}
use human_llm_gateway.Services.Delivery.{add_event}
use human_llm_gateway.Services.Workbench.{ReplyDraft, Libraries, validate_reply_draft}
use human_llm_gateway.Services.Workbench.Edits.{submit_reply, assert_tool_call_warning_acknowledged}
use human_llm_gateway.Services.Inbound.{InboundEnv, Handled}
use human_llm_gateway.Services.Inbound.Staging.{
  caught, validate_im_reply, after_reply, submit_valid, submit_draft,
}
use human_llm_gateway.Slots.Invariant.{has_id}
use human_llm_gateway.Workbench.Replies.{reply_row, submit_reply-keys, submit_reply-IsAccepted}

caught-passed : (call : Result (Unit {0})) → caught call ≡ ok true → call ≡ ok tt
caught-passed (ok tt) h = refl
caught-passed (err (domain e)) h = cc
caught-passed (err value_error) h = cc
caught-passed (err missing_row) h = cc
caught-passed (err integrity_error) h = cc

-- What it takes for a reply to be accepted, and what it leaves behind.
pub record IsReplied (env : InboundEnv) (task : RequestTask) (draft : ReplyDraft) (a b : Db)
    : Type 0 where
  pub valid : validate_reply_draft env.libraries task draft true ≡ ok tt
  pub warned : assert_tool_call_warning_acknowledged task draft.tool_calls a ≡ ok tt
  pub before : RequestTask
  pub before_eq : Tasks.get a task.id ≡ some before
  pub was_waiting : before.state ≡ waiting_human
  pub same_owner : before.owner_user_id ≡ task.owner_user_id
  pub same_version : before.version ≡ task.version
  pub after : RequestTask
  pub after_eq : Tasks.get b task.id ≡ some after
  pub is_ready : after.state ≡ response_ready
  pub payload : after.response_payload_json ≡ some (env.libraries.dump_reply draft)

-- What follows the UPDATE of a reply leaves the tasks, and is `accepted` if it met its row.
after_reply-tasks :
    (env : InboundEnv) (row : ImConnection) (task : RequestTask) (source : Option ℕ) (x : Bool × Db)
    → (after_reply env row task source x).result ≡ accepted
    → (x.0 ≡ true) × ((after_reply env row task source x).db.tasks ≡ x.1.tasks)
unfolding after_reply add_event mark_draft_state
after_reply-tasks env row task none (true, db) h = (refl, refl)
after_reply-tasks env row task (some draft_id) (true, db) h = (refl, refl)
after_reply-tasks env row task source (false, db) h = cc

-- A validated reply that is accepted.
submit_valid-accepted :
    (env : InboundEnv) (row : ImConnection) (task : RequestTask) (draft : ReplyDraft)
    (source : Option ℕ) (a : Db) (valid : Bool)
    → (submit_valid env row task draft source a valid).result ≡ accepted
    → let x =
        Tasks.first_reply_wins env.now task.id task.owner_user_id task.version
          (env.libraries.dump_reply draft)
          a in
      (valid ≡ true)
      × (x.0 ≡ true)
      × ((submit_valid env row task draft source a valid).db.tasks ≡ x.1.tasks)
submit_valid-accepted env row task draft source a true h =
    let (won, same) = after_reply-tasks env row task source _ h in (refl, won, same)
submit_valid-accepted env row task draft source a false h = cc

-- With unique task keys, a reply from a messenger that is accepted passed the full validation,
-- has the warning acknowledged if it calls tools, and met the stored task of the same owner
-- waiting at the version that was seen; the task is then ready with that reply.
pub submit_draft-IsReplied :
    (env : InboundEnv) (row : ImConnection) (task : RequestTask) (draft : ReplyDraft)
    (source : Option ℕ) (a : Db) {h : Handled}
    → ((j : ℕ) → count_where (has_id j) a.tasks ≤ 1)
    → submit_draft env row task draft source a ≡ ok h
    → h.result ≡ accepted
    → IsReplied env task draft a h.db
unfolding submit_draft validate_im_reply Tasks.get
submit_draft-IsReplied env row task draft source a {h} unique run done =
    let (valid, checked, sent) = >>=-eq-ok (validate_im_reply env task draft a) _ run in
    let same = ok-injective sent in
    let (was_valid, won, tasks) =
      submit_valid-accepted env row task draft source a valid (ap (λ x. x.result) same ∙ done) in
    let checks = caught-passed _ (checked ∙ ap ok was_valid) in
    let (_, validated, warned) =
      >>=-eq-ok (validate_reply_draft env.libraries task draft true) _ checks in
    let (t, found, met, later) =
      reply_row env.now task.id task.owner_user_id task.version (env.libraries.dump_reply draft) a
        unique won in
    record {
      valid = validated;
      warned = warned;
      before = t;
      before_eq = found;
      was_waiting = same_state_sound t.state waiting_human (ground arith);
      same_owner = ground arith;
      same_version = ground arith;
      after = Tasks.reply_values (env.libraries.dump_reply draft) env.now t;
      after_eq =
          ap (λ x. find_where (has_id task.id) x.db.tasks) (sym same)
          ∙ (ap (find_where (has_id task.id)) tasks ∙ later);
      is_ready = refl;
      payload = refl;
    }

-- On a database where the task is ready, no reply from a messenger is accepted.
ready-refused :
    (env : InboundEnv) (row : ImConnection) (task t : RequestTask) (draft : ReplyDraft)
    (source : Option ℕ) (a : Db) {h : Handled}
    → ((j : ℕ) → count_where (has_id j) a.tasks ≤ 1)
    → Tasks.get a task.id ≡ some t
    → t.state ≡ response_ready
    → submit_draft env row task draft source a ≡ ok h
    → ¬ (h.result ≡ accepted)
ready-refused env row task t draft source a unique found ready run done =
    let next = submit_draft-IsReplied env row task draft source a unique run done in
    cc (found, next.before_eq, ready, next.was_waiting)

-- With unique task keys, on the database that an accepted reply of the workbench leaves, no
-- reply from a messenger for that task is accepted, whichever row, draft and connection it comes
-- with.
pub submit_draft-once :
    (l : Libraries) (now : ℕ) (env : InboundEnv) (row : ImConnection) (task stale : RequestTask)
    (owner : User) (draft other : ReplyDraft) (source second : Option ℕ) (a : Db) {b : Db}
    {h : Handled}
    → ((j : ℕ) → count_where (has_id j) a.tasks ≤ 1)
    → submit_reply l now task owner draft source a ≡ ok (true, b)
    → stale.id ≡ task.id
    → submit_draft env row stale other second b ≡ ok h
    → ¬ (h.result ≡ accepted)
submit_draft-once l now env row task stale owner draft other source second a {b} unique won same
      run =
    let first = submit_reply-IsAccepted l now task owner draft source a unique won in
    ready-refused env row stale first.after other second b
      (λ j. omega (arith, unique j, submit_reply-keys l now task owner draft source a j won))
      (ap (Tasks.get b) same ∙ first.after_eq) first.is_ready run
