-- ===== src/Services/Sweeper.antt =====
-- app/services/task_sweeper.py, `sweep_once`: ends the tasks whose waiting loop has gone. Times
-- are compared by adding the grace to the older one, where the source subtracts it from `now`.
use human_llm_gateway.Prelude.{
  ℕ, ◌+◌, ◌*◌, Bool, true, false, ◌&&◌, ◌||◌, Option, none, some, List, [], ◌∷◌, is_none, leb, take,
  if◌then◌else◌,
}
use human_llm_gateway.Domain.Enums.{
  TaskState, waiting_human, forwarding_llm, response_ready, responding, same_state, state_in,
  is_human, is_llm,
}
use human_llm_gateway.Model.Task.{RequestTask}
use human_llm_gateway.Model.Db.{Db}
use human_llm_gateway.Result.{Result, ok, err}
use human_llm_gateway.Table.Rows.{select_where, order_by}
use human_llm_gateway.Services.Inference.{second, finalize, cancel_caller_disconnected}

abbrev pub fallback_claim_grace : ℕ
fallback_claim_grace = 30 * second

-- LLM_MAX_STREAM_SECONDS, and the grace on top of it.
abbrev pub stale_forward_grace : ℕ
stale_forward_grace = 630 * second

abbrev pub stale_output_grace : ℕ
stale_output_grace = 600 * second

abbrev pub sweep_batch_limit : ℕ
sweep_batch_limit = 200

-- `human_deadline_at <= now - grace`; a missing deadline meets no comparison.
abbrev pub passed : ℕ → ℕ → Option ℕ → Bool
passed now grace none = false
passed now grace (some deadline) = leb (deadline + grace) now

abbrev pub is_overdue : ℕ → RequestTask → Bool
is_overdue now t =
    ((same_state t.state waiting_human
        && (passed now 0 t.human_deadline_at
            && (is_human t.reply_strategy_snapshot
                || passed now fallback_claim_grace t.human_deadline_at)))
      || (same_state t.state forwarding_llm && leb (t.updated_at + stale_forward_grace) now))
    && is_none t.slot_released_at

abbrev pub sweep_target : RequestTask → TaskState
sweep_target t =
    if same_state t.state forwarding_llm || is_llm t.reply_strategy_snapshot
    then TaskState.failed
    else TaskState.timed_out

abbrev pub is_stale : ℕ → RequestTask → Bool
is_stale now t =
    state_in t.state (response_ready ∷ responding ∷ [])
    && (leb (t.updated_at + stale_output_grace) now && is_none t.slot_released_at)

pub record SweepCounts : Type 0 where
  pub timed_out : ℕ
  pub failed : ℕ
  pub cancelled : ℕ

abbrev pub count_ended : TaskState → SweepCounts → SweepCounts
count_ended TaskState.failed c = record c { failed = c.failed + 1 }
count_ended _ c = record c { timed_out = c.timed_out + 1 }

-- One task, in a transaction of its own; an exception rolls it back and is not passed on.
after_overdue : TaskState → SweepCounts → Db → Result (Bool × Db) → SweepCounts × Db
after_overdue target c db (err e) = (c, db)
after_overdue target c db (ok (true, db')) = (count_ended target c, db')
after_overdue target c db (ok (false, db')) = (c, db')

unfoldable pub sweep_one : ℕ → RequestTask → SweepCounts × Db → SweepCounts × Db
unfolding after_overdue
sweep_one now t (c, db) =
    after_overdue (sweep_target t) c db
      (finalize now t (sweep_target t) (some (t.state ∷ [])) none db)

unfoldable pub sweep_overdue : ℕ → List RequestTask → SweepCounts × Db → SweepCounts × Db
sweep_overdue now [] r = r
sweep_overdue now (t ∷ ts) r = sweep_overdue now ts (sweep_one now t r)

after_stale : SweepCounts → Bool × Db → SweepCounts × Db
after_stale c (true, db) = (record c { cancelled = c.cancelled + 1 }, db)
after_stale c (false, db) = (c, db)

unfoldable pub cancel_one : ℕ → RequestTask → SweepCounts × Db → SweepCounts × Db
unfolding after_stale
cancel_one now t (c, db) =
    after_stale c (cancel_caller_disconnected now t.id "stale_output_swept" db)

unfoldable pub sweep_stale : ℕ → List RequestTask → SweepCounts × Db → SweepCounts × Db
sweep_stale now [] r = r
sweep_stale now (t ∷ ts) r = sweep_stale now ts (cancel_one now t r)

abbrev pub batch : (RequestTask → Bool) → Db → List RequestTask
batch p db = take sweep_batch_limit (order_by (λ (t : RequestTask). t.id) (select_where p db.tasks))

unfoldable pub sweep_once : ℕ → Db → SweepCounts × Db
unfolding sweep_overdue sweep_stale
sweep_once now db =
    let start : SweepCounts = record { timed_out = 0; failed = 0; cancelled = 0 } in
    let (c, swept) = sweep_overdue now (batch (is_overdue now) db) (start, db) in
    sweep_stale now (batch (is_stale now) swept) (c, swept)
