-- ===== src/Throttle/Table.antt =====
-- app/core/login_throttle.py. The dictionary is a list of entries in the order of their insertion.
-- The list of a key's failures is never empty: it is kept as the latest one and the older ones, the
-- newest first. A time is a number of microseconds of the monotonic clock; the lock makes a call one
-- step.
use text.Mathlib.Text.{◌==◌ as str_eq}
use human_llm_gateway.Prelude.{
  ℕ, zero, suc, ◌-◌, String, Bool, Option, none, some, List, [], ◌∷◌, length, ltb, leb,
  if◌then◌else◌,
}
use human_llm_gateway.Table.Rows.{select_where, delete_where}

abbrev pub window : ℕ
window = 60000000

abbrev pub max_failures : ℕ
max_failures = 10

abbrev pub max_tracked_keys : ℕ
max_tracked_keys = 50000

pub record Entry : Type 0 where
  pub source : String
  pub latest : ℕ
  pub older : List ℕ

-- `table.get(source, [])`, the newest first
abbrev pub stamps_of : List Entry → String → List ℕ
stamps_of [] source = []
stamps_of (e ∷ es) source =
    let rest = stamps_of es source in if str_eq e.source source then e.latest ∷ e.older else rest

-- `table[source] = stamps`: in place, or a new last entry
abbrev pub put : Entry → List Entry → List Entry
put e [] = e ∷ []
put e (x ∷ xs) = let rest = x ∷ put e xs in if str_eq x.source e.source then e ∷ xs else rest

-- `table.pop(source, None)`
abbrev pub pop : String → List Entry → List Entry
pop source es = delete_where (λ e. str_eq e.source source) es

abbrev pub is_recent : ℕ → ℕ → Bool
is_recent now stamp = ltb (now - stamp) window

abbrev pub recent : ℕ → List Entry → String → List ℕ
recent now table source = select_where (is_recent now) (stamps_of table source)

-- `if attempts: table[source] = attempts else: table.pop(source, None)`
abbrev pub store : String → List ℕ → List Entry → List Entry
store source [] table = pop source table
store source (stamp ∷ stamps) table =
    put (record { source = source; latest = stamp; older = stamps }) table

unfoldable pub allow : ℕ → String → List Entry → Bool × List Entry
allow now source table =
    let attempts = recent now table source in
    (ltb (length attempts) max_failures, store source attempts table)

-- `min(table, key=…)`: the first of the entries with the least latest time
abbrev pub older_of : Entry → Option Entry → Entry
older_of e none = e
older_of e (some x) = if leb e.latest x.latest then e else x

abbrev pub oldest : List Entry → Option Entry
oldest [] = none
oldest (e ∷ es) = some (older_of e (oldest es))

abbrev pub evict : Option Entry → List Entry → List Entry
evict none table = table
evict (some e) table = pop e.source table

unfoldable pub evict_oldest : List Entry → List Entry
evict_oldest table = evict (oldest table) table

-- The loop, one unit of fuel for a round.
unfoldable pub evict_while : ℕ → List Entry → List Entry
evict_while zero table = table
evict_while (suc fuel) table =
    let rest = evict_while fuel (evict_oldest table) in
    if ltb max_tracked_keys (length table) then rest else table

unfoldable pub record_failure : ℕ → String → List Entry → List Entry
record_failure now source table =
    let failed =
      put (record { source = source; latest = now; older = recent now table source }) table in
    evict_while (length failed) failed

unfoldable pub reset : String → List Entry → List Entry
reset source table = pop source table
