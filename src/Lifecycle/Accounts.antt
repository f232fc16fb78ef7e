-- ===== src/Lifecycle/Accounts.antt =====
-- The accounts of slots over the reachable databases.
use mathlib.Core.Path.{subst}
use mathlib.Core.Bool.{not-not}
use human_llm_gateway.Prelude.{
  ℕ, ◌≤◌, ◌≡◌, refl, String, Bool, Option, none, some, List, [], ◌∷◌, arith, ◌==◌, ==_iff, ◌&&◌,
  not,
}
use human_llm_gateway.Domain.Enums.{TaskState}
use human_llm_gateway.Model.Task.{RequestTask}
use human_llm_gateway.Model.Account.{User}
use human_llm_gateway.Model.Db.{Db}
use human_llm_gateway.Result.{ok, ok-injective}
use human_llm_gateway.Table.Rows.{count_where, find_where}
use human_llm_gateway.Table.Counts.{find-meets, All-find, count-All_same}
use human_llm_gateway.Repositories.Tasks
use human_llm_gateway.Repositories.Users
use human_llm_gateway.Domain.States.{is_terminal}
use human_llm_gateway.Services.Sweeper.{sweep_target}
use human_llm_gateway.Api.TaskEnds
use human_llm_gateway.Api.TaskEnds.{finalize_loaded, mark_loaded}
use human_llm_gateway.Slots.Invariant.{
  has_id, user_has_id, held_by, IsAccounted, IsSettled, IsCounted, IsCapped,
}
use human_llm_gateway.Slots.Transitions.{
  get-IsOwner, finalize-IsAccounted, cancel-IsAccounted, first_reply-IsAccounted,
  accept_forward-IsAccounted, claim-IsAccounted, mark_responding-IsAccounted,
}
use human_llm_gateway.Slots.Creation.{create_task-IsAccounted}
use human_llm_gateway.Slots.Disabling.{disable_user-IsAccounted, enable_user-IsAccounted}
use human_llm_gateway.Lifecycle.Steps.{
  Step, create, reply, claim_forward, accept_forward, start_output, finish, fail_forward, cancel,
  sweep, disable, enable, Reach, here, next,
}

-- A row that was just loaded by its key.
finalize_loaded-IsAccounted :
    (now task_id : ℕ) (found : Option RequestTask) (state : TaskState)
    (sources : Option (List TaskState)) (public_error : Option String) (db : Db) {r : Bool × Db}
    → find_where (has_id task_id) db.tasks ≡ found
    → finalize_loaded now found state sources public_error db ≡ ok r
    → IsAccounted db
    → IsAccounted r.1
unfolding finalize_loaded
finalize_loaded-IsAccounted now task_id none state sources public_error db e h s =
    subst (λ x. IsAccounted x.1) (ok-injective h) s
finalize_loaded-IsAccounted now task_id (some t) state sources public_error db e h s =
    let same = (==_iff t.id task_id).0 (find-meets (has_id task_id) db.tasks t e) in
    finalize-IsAccounted now t state sources public_error db
      (rw same (get-IsOwner task_id db.tasks t (s.unique_tasks task_id) e)) s h

mark_loaded-IsAccounted :
    (now : ℕ) (found : Option RequestTask) (db : Db)
    → IsAccounted db
    → IsAccounted (mark_loaded now found db).1
unfolding mark_loaded
mark_loaded-IsAccounted now none db s = s
mark_loaded-IsAccounted now (some t) db s = mark_responding-IsAccounted now t db s

mark_responding_api-IsAccounted :
    (now task_id : ℕ) (db : Db)
    → IsAccounted db
    → IsAccounted (TaskEnds.mark_responding now task_id db).1
unfolding TaskEnds.mark_responding
mark_responding_api-IsAccounted now task_id db s =
    mark_loaded-IsAccounted now (Tasks.get db task_id) db s

pub Step-IsAccounted : {a b : Db} → Step a b → IsAccounted a → IsAccounted b
unfolding TaskEnds.finalize TaskEnds.fail_forward Tasks.get
Step-IsAccounted {a} (create env now fresh key o protocol parsed resolved normalize task unused h)
      s =
    create_task-IsAccounted env now fresh key o protocol parsed resolved normalize a h unused s
Step-IsAccounted {a} (reply now i o v payload e) s =
    rw e (first_reply-IsAccounted now i o v payload a s)
Step-IsAccounted {a} (claim_forward now i e) s = rw e (claim-IsAccounted now i a s)
Step-IsAccounted {a} (accept_forward now i o v payload e) s =
    rw e (accept_forward-IsAccounted now i o v payload a s)
Step-IsAccounted {a} (start_output now i e) s = rw e (mark_responding_api-IsAccounted now i a s)
Step-IsAccounted {a} (finish now i state pe done end h) s =
    finalize_loaded-IsAccounted now i _ state (TaskEnds.finalize_sources state) pe a refl h s
Step-IsAccounted {a} (fail_forward now i pe done h) s =
    finalize_loaded-IsAccounted now i _ TaskState.failed _ pe a refl h s
Step-IsAccounted {a} (cancel now i reason e) s = rw e (cancel-IsAccounted now i reason a s)
Step-IsAccounted {a} (sweep now task done due own h) s =
    finalize-IsAccounted now task (sweep_target task) (some (task.state ∷ [])) none a own s h
Step-IsAccounted {a} (disable now u actor impact h) s = disable_user-IsAccounted now u actor a h s
Step-IsAccounted {a} (enable now u actor e) s = rw e (enable_user-IsAccounted now u actor a s)

pub Reach-IsAccounted : {a b : Db} → Reach a b → IsAccounted a → IsAccounted b
Reach-IsAccounted here s = s
Reach-IsAccounted (next r st) s = Step-IsAccounted st (Reach-IsAccounted r s)

abbrev pub unfinished_of : ℕ → RequestTask → Bool
unfinished_of i t = t.owner_user_id == i && not (is_terminal t.state)

-- In every database that the transactions reach from an accounted one, the counter of a stored
-- user is the number of that user's tasks that have not ended, and it is ten at most.
pub slots_bounded :
    {a b : Db} (i : ℕ) (u : User)
    → IsAccounted a
    → Reach a b
    → Users.get b i ≡ some u
    → (count_where (unfinished_of i) b.tasks ≡ u.active_task_count)
      × (u.active_task_count ≤ Users.max_active_tasks_per_user)
unfolding Users.get
slots_bounded {a} {b} i u s r e =
    let t = Reach-IsAccounted r s in
    let same = (==_iff u.id i).0 (find-meets (user_has_id i) b.users u e) in
    let counted = All-find (IsCounted b.tasks) (user_has_id i) b.users u t.counted e in
    let alike =
      count-All_same IsSettled (unfinished_of i) (held_by i) b.tasks
        (λ x settled. rw (settled, not-not) refl) t.settled in
    (
      omega (arith, alike, rw same at counted),
      All-find IsCapped (user_has_id i) b.users u t.capped e,
    )
