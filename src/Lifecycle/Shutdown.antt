-- ===== src/Lifecycle/Shutdown.antt =====
-- The rounds of `cancel_active_tasks` (app/services/task_lifecycle.py).
use human_llm_gateway.Prelude.{
  ℕ, zero, suc, ◌+◌, ◌≤◌, ◌<◌, ◌≡◌, refl, String, Bool, true, false, some, List, [], ◌∷◌, arith,
  bit, inl, inr, ◌⊎◌,
}
use human_llm_gateway.Model.Task.{RequestTask}
use human_llm_gateway.Model.Db.{Db}
use human_llm_gateway.Table.Rows.{count_where}
use human_llm_gateway.Table.Counts.{count-update_loss, count_mono}
use human_llm_gateway.Table.Selects.{select-empty, count-select_head}
use human_llm_gateway.Repositories.Tasks
use human_llm_gateway.Services.Inference
use human_llm_gateway.Services.Inference.{after_cancel}
use human_llm_gateway.Services.Shutdown.{
  is_active, active_batch, cancel_batch, cancel_rounds, cancel_active_tasks,
}
use human_llm_gateway.Slots.Invariant.{has_id, IsAccounted}
use human_llm_gateway.Slots.Transitions.{cancel-IsAccounted}
use human_llm_gateway.Lifecycle.Conformance.{after_cancel-tasks}

abbrev pub active_count : Db → ℕ
active_count db = count_where is_active db.tasks

after_cancel-done : (now i : ℕ) (done : Bool) (db : Db) → (after_cancel now i (done, db)).0 ≡ done
unfolding after_cancel
after_cancel-done now i true db = refl
after_cancel-done now i false db = refl

-- A cancellation that reports success takes one task off the active ones, another takes none.
cancel-active_count :
    (now i : ℕ) (reason : String) (db : Db)
    → IsAccounted db
    → active_count (Inference.cancel_caller_disconnected now i reason db).1
        + bit (Inference.cancel_caller_disconnected now i reason db).0
      ≡ active_count db
unfolding Inference.cancel_caller_disconnected Tasks.cancel_caller_disconnected
cancel-active_count now i reason db s =
    rw (after_cancel-tasks, after_cancel-done)
      (ground (
        arith,
        count-update_loss (Tasks.cancel_condition i) is_active (Tasks.cancel_condition i)
            (Tasks.cancel_values reason now) (λ t. ground arith) db.tasks,
        count_mono (Tasks.cancel_condition i) (has_id i) db.tasks (λ t. ground arith),
        s.unique_tasks i,
      ))

cancel_done :
    (now i : ℕ) (reason : String) (db : Db)
    → IsAccounted db
    → 1 ≤ count_where (Tasks.cancel_condition i) db.tasks
    → (Inference.cancel_caller_disconnected now i reason db).0 ≡ true
unfolding Inference.cancel_caller_disconnected Tasks.cancel_caller_disconnected
cancel_done now i reason db s met = rw after_cancel-done (
    ground (
      arith,
      count_mono (Tasks.cancel_condition i) (has_id i) db.tasks (λ t. ground arith),
      s.unique_tasks i,
    ))

-- A round keeps the accounts, and the cancelled and the active tasks in balance.
record Balanced (r r' : ℕ × Db) : Type 0 where
  accounted : IsAccounted r'.1
  balance : r'.0 + active_count r'.1 ≡ r.0 + active_count r.1
  grows : r.0 ≤ r'.0

batch-Balanced :
    (now : ℕ) (reason : String) (ts : List RequestTask) (n : ℕ) (db : Db)
    → IsAccounted db
    → Balanced (n, db) (cancel_batch now reason ts (n, db))
unfolding cancel_batch
batch-Balanced now reason [] n db s = record { accounted = s; balance = refl; grows = omega arith }
batch-Balanced now reason (t ∷ ts) n db s =
    let (done, db') = Inference.cancel_caller_disconnected now t.id reason db in
    let rest =
      batch-Balanced now reason ts (n + bit done) db' (cancel-IsAccounted now t.id reason db s) in
    record {
      accounted = rest.accounted;
      balance = omega (arith, rest.balance, cancel-active_count now t.id reason db s);
      grows = omega (arith, rest.grows);
    }

-- A round over a selection that is not empty cancels at least one.
round_progress :
    (now : ℕ) (reason : String) (t : RequestTask) (ts : List RequestTask) (n : ℕ) (db : Db)
    → IsAccounted db
    → active_batch db ≡ t ∷ ts
    → suc n ≤ (cancel_batch now reason (t ∷ ts) (n, db)).0
unfolding cancel_batch
round_progress now reason t ts n db s e =
    let (done, db') = Inference.cancel_caller_disconnected now t.id reason db in
    let rest =
      batch-Balanced now reason ts (n + bit done) db' (cancel-IsAccounted now t.id reason db s) in
    ground (
      arith,
      rest.grows,
      cancel_done now t.id reason db s
          (count-select_head is_active (has_id t.id) 199 db.tasks t ts (ground arith) e),
    )

batch_cases :
    (db : Db)
    → (active_batch db ≡ [])
      ⊎ ((t : RequestTask) × (ts : List RequestTask) × (active_batch db ≡ t ∷ ts))
batch_cases db = go (active_batch db) refl
  where
    go :
        (l : List RequestTask)
        → active_batch db ≡ l
        → (active_batch db ≡ [])
          ⊎ ((t : RequestTask) × (ts : List RequestTask) × (active_batch db ≡ t ∷ ts))
    go [] e = inl e
    go (t ∷ ts) e = inr (t, ts, e)

rounds_finish :
    (fuel now : ℕ) (reason : String) (n : ℕ) (db : Db)
    → IsAccounted db
    → active_count db < fuel
    → (r : ℕ × Db) × (cancel_rounds fuel now reason (n, db) ≡ some r)
      × (active_count r.1 ≡ 0)
      × (r.0 ≡ n + active_count db)
unfolding cancel_rounds
rounds_finish zero now reason n db s h = elim h [ ]
rounds_finish (suc fuel) now reason n db s h = elim (batch_cases db) [
  | inl empty ↦
      let none_left = select-empty is_active 199 db.tasks empty in
      ((n, db), rw (empty, cancel_rounds) refl, none_left, omega (arith, none_left))
  | inr (t, ts, e) ↦
      let b = batch-Balanced now reason (t ∷ ts) n db s in
      let progress = round_progress now reason t ts n db s e in
      let (n', db') = cancel_batch now reason (t ∷ ts) (n, db) in
      let (r, run, clean, count) =
        rounds_finish fuel now reason n' db' b.accounted (omega (arith, b.balance, progress)) in
      (r, rw (e, cancel_rounds) run, clean, omega (arith, count, b.balance))
]

-- On an accounted database, with more rounds than active tasks the shutdown loop ends, leaves no
-- active task, and returns how many there were.
pub cancel_active_tasks_total :
    (fuel now : ℕ) (reason : String) (db : Db)
    → IsAccounted db
    → active_count db < fuel
    → (r : ℕ × Db) × (cancel_active_tasks fuel now reason db ≡ some r)
      × (active_count r.1 ≡ 0)
      × (r.0 ≡ active_count db)
unfolding cancel_active_tasks
cancel_active_tasks_total fuel now reason db s h =
    let (r, run, clean, count) = rounds_finish fuel now reason 0 db s h in
    (r, run, clean, omega (arith, count))
