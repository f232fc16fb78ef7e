-- ===== src/Throttle/History.antt =====
-- Histories of calls of app/core/login_throttle.py, and the reference for what the throttle counts.
use text.Mathlib.Text.{◌==◌ as str_eq}
use human_llm_gateway.Prelude.{ℕ, ◌≤◌, String, List, [], ◌∷◌, if◌then◌else◌}
use human_llm_gateway.Throttle.Table.{Entry, allow, record_failure, reset}

-- The calls that write the table, with the time at which they run.
pub data Call : Type 0 where
  attempted failed : ℕ → String → Call
  succeeded : String → Call

abbrev pub run : Call → List Entry → List Entry
run (attempted now source) table = (allow now source table).1
run (failed now source) table = record_failure now source table
run (succeeded source) table = reset source table

-- The table behind a history, the newest call first.
abbrev pub table_after : List Call → List Entry
table_after [] = []
table_after (call ∷ calls) = run call (table_after calls)

-- The reference: the failures of a source since its last success, the newest first.
abbrev pub failures_of : String → List Call → List ℕ
failures_of source [] = []
failures_of source (attempted now s ∷ calls) = failures_of source calls
failures_of source (failed now s ∷ calls) =
    let rest = failures_of source calls in if str_eq s source then now ∷ rest else rest
failures_of source (succeeded s ∷ calls) =
    let rest = failures_of source calls in if str_eq s source then [] else rest

-- No call is later than `now`, and each is no earlier than those before it.
abbrev pub InOrder : ℕ → List Call → Type 0
InOrder now [] = Unit
InOrder now (attempted t s ∷ calls) = (t ≤ now) × InOrder t calls
InOrder now (failed t s ∷ calls) = (t ≤ now) × InOrder t calls
InOrder now (succeeded s ∷ calls) = InOrder now calls
