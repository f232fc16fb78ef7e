-- ===== src/Workbench/Final.antt =====
-- Submissions after an accepted reply and further transactions (app/services/task_service.py).
use human_llm_gateway.Prelude.{ℕ, ◌≡◌, refl, ap, ◌∙◌, Bool, true, false, Option, none, some}
use human_llm_gateway.Model.Task.{RequestTask}
use human_llm_gateway.Model.Account.{User}
use human_llm_gateway.Model.Db.{Db}
use human_llm_gateway.Result.{ok}
use human_llm_gateway.Repositories.Drafts.{mark_draft_state}
use human_llm_gateway.Services.Delivery.{add_event}
use human_llm_gateway.Services.Governance.{audit}
use human_llm_gateway.Services.Workbench.{ReplyDraft, Libraries}
use human_llm_gateway.Services.Workbench.Edits.{submit_reply, after_submit, mark_source}
use human_llm_gateway.Slots.Invariant.{IsAccounted}
use human_llm_gateway.Slots.Transitions.{first_reply-IsAccounted}
use human_llm_gateway.Lifecycle.Steps.{Reach}
use human_llm_gateway.Lifecycle.Accounts.{Reach-IsAccounted}
use human_llm_gateway.Lifecycle.Machine.{reached-IsFinal}
use human_llm_gateway.Workbench.Replies.{submit_reply-passed, submit_reply-IsAccepted, other_done}
use mathlib.Core.Path.{subst}

after_submit-IsAccounted :
    (now : ℕ) (task : RequestTask) (owner : User) (source : Option ℕ) (x : Bool × Db)
    → IsAccounted x.1
    → IsAccounted (after_submit now task owner source x).1
unfolding after_submit mark_source mark_draft_state audit add_event
after_submit-IsAccounted now task owner none (true, db) s = s
after_submit-IsAccounted now task owner (some draft_id) (true, db) s = s
after_submit-IsAccounted now task owner source (false, db) s = s

submit_reply-IsAccounted :
    (l : Libraries) (now : ℕ) (task : RequestTask) (owner : User) (draft : ReplyDraft)
    (source : Option ℕ) (a : Db) {r : Bool × Db}
    → IsAccounted a
    → submit_reply l now task owner draft source a ≡ ok r
    → IsAccounted r.1
submit_reply-IsAccounted l now task owner draft source a s h =
    let (_, _, _, run) = submit_reply-passed l now task owner draft source a h in
    subst (λ x. IsAccounted x.1) run
      (after_submit-IsAccounted now task owner source _ (
        first_reply-IsAccounted now task.id task.owner_user_id task.version (l.dump_reply draft) a
          s))

-- Once submit_reply accepted a reply on an accounted database, no submission for that task is
-- accepted after any sequence of further transactions, whichever row, user, version and draft it
-- comes with.
pub submit_reply-IsLast :
    (l : Libraries) (now later : ℕ) (task stale : RequestTask) (owner user : User)
    (draft other : ReplyDraft) (source second : Option ℕ) (a : Db) {b c : Db} {r : Bool × Db}
    → IsAccounted a
    → submit_reply l now task owner draft source a ≡ ok (true, b)
    → Reach b c
    → stale.id ≡ task.id
    → submit_reply l later stale user other second c ≡ ok r
    → r.0 ≡ false
submit_reply-IsLast l now later task stale owner user draft other source second a {b} {c} {r} s h
      path same h2 =
    let first = submit_reply-IsAccepted l now task owner draft source a s.unique_tasks h in
    let accounted = submit_reply-IsAccounted l now task owner draft source a s h in
    let (t, found, final) = reached-IsFinal task.id first.after accounted path first.after_eq in
    let closed = final.no_return (rw first.is_ready refl) in
    other_done r.0 (λ won.
      let next =
        submit_reply-IsAccepted l later stale user other second c
          (Reach-IsAccounted path accounted).unique_tasks (h2 ∙ ap (λ d. ok (d, r.1)) won) in
      cc (found, next.before_eq, same, closed, next.was_waiting))
