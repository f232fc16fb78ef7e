-- ===== src/Examples/Throttle.antt =====
-- Ten failures of one source, and one of another.
use human_llm_gateway.Prelude.{◌≤◌, ◌≡◌, List, [], ◌∷◌, length, ltb, arith}
use human_llm_gateway.Table.Rows.{select_where}
use human_llm_gateway.Throttle.Table.{
  is_recent, allow, record_failure, max_failures, max_tracked_keys,
}
use human_llm_gateway.Throttle.History.{
  Call, attempted, failed, succeeded, table_after, failures_of, InOrder,
}
use human_llm_gateway.Throttle.Bounds.{record_failure-bounded}
use human_llm_gateway.Throttle.Counting.{allow-history}

abbrev calls : List Call
calls =
    failed 30 "ann"
    ∷ attempted 29 "ann"
    ∷ failed 20 "bob"
    ∷ failed 10 "ann"
    ∷ succeeded "ann"
    ∷ failed 5 "ann"
    ∷ []

in_order : InOrder 40 calls
in_order = (omega arith, (omega arith, (omega arith, (omega arith, (omega arith, tt)))))

record_failure-bounded_example :
    length (record_failure 40 "ann" (table_after calls)) ≤ max_tracked_keys
record_failure-bounded_example = record_failure-bounded 40 "ann" (table_after calls)

allow-history_example :
    (allow 40 "ann" (table_after calls)).0
    ≡ ltb (length (select_where (is_recent 40) (failures_of "ann" calls))) max_failures
allow-history_example = allow-history 40 "ann" calls in_order (omega arith)
