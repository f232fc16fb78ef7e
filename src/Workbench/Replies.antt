-- ===== src/Workbench/Replies.antt =====
-- `submit_reply` of app/services/task_service.py: accepted replies, and submissions after one.
use mathlib.Core.Option
use human_llm_gateway.Prelude.{
  ℕ, ◌+◌, ◌≤◌, ◌≡◌, refl, sym, ap, ◌∙◌, String, Bool, true, false, Option, none, some, arith,
  ==_iff,
}
use human_llm_gateway.Domain.Enums.{waiting_human, response_ready, same_state_sound}
use human_llm_gateway.Model.Task.{RequestTask}
use human_llm_gateway.Model.Account.{User}
use human_llm_gateway.Model.Db.{Db}
use human_llm_gateway.Result.{ok, >>=-eq-ok, ok-injective}
use human_llm_gateway.Table.Rows.{count_where, update_row, find_where}
use human_llm_gateway.Table.Counts.{count-update_same, find-update}
use human_llm_gateway.Table.Keys.{matched_row, updated_met}
use human_llm_gateway.Repositories.Tasks
use human_llm_gateway.Repositories.Drafts.{mark_draft_state}
use human_llm_gateway.Services.Delivery.{add_event}
use human_llm_gateway.Services.Governance.{audit}
use human_llm_gateway.Services.Workbench.{
  ReplyDraft, Libraries, validate_reply_draft, assert_writable,
}
use human_llm_gateway.Services.Workbench.Edits.{
  submit_reply, after_submit, assert_tool_call_warning_acknowledged,
}
use human_llm_gateway.Slots.Invariant.{has_id}

reply_key :
    (i o v : ℕ) (t : RequestTask)
    → Tasks.reply_condition waiting_human i o v t ≡ true
    → has_id i t ≡ true
reply_key i o v t m = ground arith

-- The row that a reply met, and what became of it.
pub reply_row :
    (now i o v : ℕ) (payload : String) (db : Db)
    → ((j : ℕ) → count_where (has_id j) db.tasks ≤ 1)
    → (Tasks.first_reply_wins now i o v payload db).0 ≡ true
    → (t : RequestTask) × (Tasks.get db i ≡ some t)
      × (Tasks.reply_condition waiting_human i o v t ≡ true)
      × (Tasks.get (Tasks.first_reply_wins now i o v payload db).1 i
          ≡ some (Tasks.reply_values payload now t))
unfolding Tasks.first_reply_wins Tasks.get
reply_row now i o v payload db unique won =
    let p = Tasks.reply_condition waiting_human i o v in
    let f = Tasks.reply_values payload now in
    let (t, found, met) =
      matched_row p (has_id i) db.tasks (reply_key i o v)
        ((==_iff (count_where p db.tasks) 1).0 won) (unique i) in
    (
      t,
      found,
      met,
      find-update (has_id i) p f db.tasks (λ x. ground arith)
          ∙ (ap (Option.map (update_row p f)) found ∙ ap some (updated_met p f t met)),
    )

pub submit_reply-passed :
    (l : Libraries) (now : ℕ) (task : RequestTask) (owner : User) (draft : ReplyDraft)
    (source : Option ℕ) (db : Db) {r : Bool × Db}
    → submit_reply l now task owner draft source db ≡ ok r
    → (assert_writable task owner ≡ ok tt)
      × (validate_reply_draft l task draft true ≡ ok tt)
      × (assert_tool_call_warning_acknowledged task draft.tool_calls db ≡ ok tt)
      × (after_submit now task owner source (
            Tasks.first_reply_wins now task.id task.owner_user_id task.version
              (l.dump_reply draft)
              db)
          ≡ r)
unfolding submit_reply
submit_reply-passed l now task owner draft source db h =
    let (_, writable, h1) = >>=-eq-ok (assert_writable task owner) _ h in
    let (_, valid, h2) = >>=-eq-ok (validate_reply_draft l task draft true) _ h1 in
    let (_, warned, h3) =
      >>=-eq-ok (assert_tool_call_warning_acknowledged task draft.tool_calls db) _ h2 in
    (writable, valid, warned, ok-injective h3)

after_submit-tasks :
    (now : ℕ) (task : RequestTask) (owner : User) (source : Option ℕ) (x : Bool × Db)
    → ((after_submit now task owner source x).0 ≡ x.0)
      × ((after_submit now task owner source x).1.tasks ≡ x.1.tasks)
unfolding after_submit add_event audit mark_draft_state
after_submit-tasks now task owner none (true, db) = (refl, refl)
after_submit-tasks now task owner (some draft_id) (true, db) = (refl, refl)
after_submit-tasks now task owner source (false, db) = (refl, refl)

-- What it takes for a reply to be accepted, and what it leaves behind.
pub record IsAccepted (l : Libraries) (task : RequestTask) (owner : User) (draft : ReplyDraft)
    (a b : Db) : Type 0 where
  pub writable : assert_writable task owner ≡ ok tt
  pub valid : validate_reply_draft l task draft true ≡ ok tt
  pub warned : assert_tool_call_warning_acknowledged task draft.tool_calls a ≡ ok tt
  pub before : RequestTask
  pub before_eq : Tasks.get a task.id ≡ some before
  pub was_waiting : before.state ≡ waiting_human
  pub same_version : before.version ≡ task.version
  pub after : RequestTask
  pub after_eq : Tasks.get b task.id ≡ some after
  pub is_ready : after.state ≡ response_ready
  pub payload : after.response_payload_json ≡ some (l.dump_reply draft)
  pub next_version : after.version ≡ task.version + 1

-- With unique task keys, an accepted reply comes from a writer of the task, passes the full
-- validation, has the warning acknowledged if it calls tools, and meets the stored task waiting
-- at the version that was seen; the task is then ready at the next version with that reply.
pub submit_reply-IsAccepted :
    (l : Libraries) (now : ℕ) (task : RequestTask) (owner : User) (draft : ReplyDraft)
    (source : Option ℕ) (a : Db) {b : Db}
    → ((j : ℕ) → count_where (has_id j) a.tasks ≤ 1)
    → submit_reply l now task owner draft source a ≡ ok (true, b)
    → IsAccepted l task owner draft a b
unfolding Tasks.get
submit_reply-IsAccepted l now task owner draft source a unique h =
    let (writable, valid, warned, run) = submit_reply-passed l now task owner draft source a h in
    let x =
      Tasks.first_reply_wins now task.id task.owner_user_id task.version (l.dump_reply draft) a in
    let (same_done, same_tasks) = after_submit-tasks now task owner source x in
    let (t, found, met, later) =
      reply_row now task.id task.owner_user_id task.version (l.dump_reply draft) a unique
        (sym same_done ∙ ap (λ r. r.0) run) in
    record {
      writable = writable;
      valid = valid;
      warned = warned;
      before = t;
      before_eq = found;
      was_waiting = same_state_sound t.state waiting_human (ground arith);
      same_version = ground arith;
      after = Tasks.reply_values (l.dump_reply draft) now t;
      after_eq =
          ap (λ r. find_where (has_id task.id) r.1.tasks) (sym run)
          ∙ (ap (find_where (has_id task.id)) same_tasks ∙ later);
      is_ready = refl;
      payload = refl;
      next_version = ground arith;
    }

-- A submission adds no task and removes none.
pub submit_reply-keys :
    (l : Libraries) (now : ℕ) (task : RequestTask) (owner : User) (draft : ReplyDraft)
    (source : Option ℕ) (a : Db) {r : Bool × Db} (j : ℕ)
    → submit_reply l now task owner draft source a ≡ ok r
    → count_where (has_id j) r.1.tasks ≡ count_where (has_id j) a.tasks
unfolding Tasks.first_reply_wins
submit_reply-keys l now task owner draft source a j h =
    let (_, _, _, run) = submit_reply-passed l now task owner draft source a h in
    let x =
      Tasks.first_reply_wins now task.id task.owner_user_id task.version (l.dump_reply draft) a in
    ap (λ r. count_where (has_id j) r.1.tasks) (sym run)
    ∙ (ap (count_where (has_id j)) (after_submit-tasks now task owner source x).1
        ∙ count-update_same
            (Tasks.reply_condition waiting_human task.id task.owner_user_id task.version) (has_id j)
            (Tasks.reply_values (l.dump_reply draft) now) (λ t. ground arith) a.tasks)

pub other_done : (b : Bool) → (b ≡ true → false ≡ true) → b ≡ false
other_done true h = sym (h refl)
other_done false h = refl

-- With unique task keys, on the database that an accepted reply leaves no further submission for
-- that task is accepted, whichever row, user, version and draft it comes with.
pub submit_reply-once :
    (l : Libraries) (now later : ℕ) (task stale : RequestTask) (owner user : User)
    (draft other : ReplyDraft) (source second : Option ℕ) (a : Db) {b : Db} {r : Bool × Db}
    → ((j : ℕ) → count_where (has_id j) a.tasks ≤ 1)
    → submit_reply l now task owner draft source a ≡ ok (true, b)
    → stale.id ≡ task.id
    → submit_reply l later stale user other second b ≡ ok r
    → r.0 ≡ false
submit_reply-once l now later task stale owner user draft other source second a {b} {r} unique h
      same h2 =
    let first = submit_reply-IsAccepted l now task owner draft source a unique h in
    other_done r.0 (λ won.
      let next =
        submit_reply-IsAccepted l later stale user other second b
          (λ j. omega (arith, unique j, submit_reply-keys l now task owner draft source a j h))
          (h2 ∙ ap (λ d. ok (d, r.1)) won) in
      cc (first.after_eq, next.before_eq, same, first.is_ready, next.was_waiting))
