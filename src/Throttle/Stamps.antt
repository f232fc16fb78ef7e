-- ===== src/Throttle/Stamps.antt =====
-- The failures that the table keeps of a source, and how many sources it keeps.
use text.Mathlib.Text.{◌==◌ as str_eq}
use text.Mathlib.TextPositions.{eq_refl}
use text.Mathlib.TextEquality.{eq_iff}
use human_llm_gateway.Prelude.{
  ℕ, zero, suc, ◌≤◌, ◌≡◌, refl, ap, ◌∙◌, String, false, List, [], ◌∷◌, length, ltb, arith,
  Bool-cases, inl, inr,
}
use human_llm_gateway.Table.Rows.{select_where}
use human_llm_gateway.Throttle.Table.{
  Entry, stamps_of, put, pop, is_recent, recent, store, allow, evict_while, record_failure, reset,
  max_tracked_keys,
}
use human_llm_gateway.Throttle.History.{Call, attempted, failed, succeeded, table_after}

-- What is recent now, was recent before.
pub narrowed :
    (t now : ℕ) (stamps : List ℕ)
    → t ≤ now
    → select_where (is_recent now) (select_where (is_recent t) stamps)
      ≡ select_where (is_recent now) stamps
narrowed t now [] earlier = refl
narrowed t now (x ∷ xs) earlier = elim (Bool-cases (is_recent t x)) [
  | inl recent ↦ rw (recent, narrowed t now xs earlier) refl
  | inr old ↦
      let older : is_recent now x ≡ false = ground arith in
      rw (old, older) (narrowed t now xs earlier)
]

pub stamps-put_same :
    (e : Entry) (table : List Entry) → stamps_of (put e table) e.source ≡ e.latest ∷ e.older
stamps-put_same e [] = rw (eq_refl e.source) refl
stamps-put_same e (x ∷ xs) = elim (Bool-cases (str_eq x.source e.source)) [
  | inl same ↦ rw (same, eq_refl e.source) refl
  | inr other ↦ rw (other, other) (stamps-put_same e xs)
]

pub stamps-put_other :
    (e : Entry) (table : List Entry) (s : String)
    → str_eq e.source s ≡ false
    → stamps_of (put e table) s ≡ stamps_of table s
stamps-put_other e [] s apart = rw apart refl
stamps-put_other e (x ∷ xs) s apart = elim (Bool-cases (str_eq x.source e.source)) [
  | inl same ↦
      let elsewhere : str_eq x.source s ≡ false =
        ap (λ k. str_eq k s) ((eq_iff x.source e.source).0 same) ∙ apart in
      rw (same, apart, elsewhere) refl
  | inr other ↦ rw (other, stamps-put_other e xs s apart) refl
]

pub stamps-pop_same : (s : String) (table : List Entry) → stamps_of (pop s table) s ≡ []
stamps-pop_same s [] = refl
stamps-pop_same s (x ∷ xs) = elim (Bool-cases (str_eq x.source s)) [
  | inl same ↦ rw same (stamps-pop_same s xs)
  | inr other ↦ rw (other, other) (stamps-pop_same s xs)
]

pub stamps-pop_other :
    (k s : String) (table : List Entry)
    → str_eq k s ≡ false
    → stamps_of (pop k table) s ≡ stamps_of table s
stamps-pop_other k s [] apart = refl
stamps-pop_other k s (x ∷ xs) apart = elim (Bool-cases (str_eq x.source k)) [
  | inl same ↦
      let elsewhere : str_eq x.source s ≡ false =
        ap (λ j. str_eq j s) ((eq_iff x.source k).0 same) ∙ apart in
      rw (same, elsewhere) (stamps-pop_other k s xs apart)
  | inr other ↦ rw (other, stamps-pop_other k s xs apart) refl
]

pub stamps-store_same :
    (s : String) (stamps : List ℕ) (table : List Entry)
    → stamps_of (store s stamps table) s ≡ stamps
stamps-store_same s [] table = stamps-pop_same s table
stamps-store_same s (x ∷ xs) table =
    stamps-put_same (record { source = s; latest = x; older = xs }) table

pub stamps-store_other :
    (k s : String) (stamps : List ℕ) (table : List Entry)
    → str_eq k s ≡ false
    → stamps_of (store k stamps table) s ≡ stamps_of table s
stamps-store_other k s [] table apart = stamps-pop_other k s table apart
stamps-store_other k s (x ∷ xs) table apart =
    stamps-put_other (record { source = k; latest = x; older = xs }) table s apart

length-put : (e : Entry) (table : List Entry) → length (put e table) ≤ suc (length table)
length-put e [] = omega arith
length-put e (x ∷ xs) = elim (Bool-cases (str_eq x.source e.source)) [
  | inl same ↦ rw same (omega arith)
  | inr other ↦ rw other (omega (arith, length-put e xs))
]

length-pop : (s : String) (table : List Entry) → length (pop s table) ≤ length table
length-pop s [] = omega arith
length-pop s (x ∷ xs) = elim (Bool-cases (str_eq x.source s)) [
  | inl same ↦ rw same (omega (arith, length-pop s xs))
  | inr other ↦ rw other (omega (arith, length-pop s xs))
]

length-store :
    (s : String) (stamps : List ℕ) (table : List Entry)
    → length (store s stamps table) ≤ suc (length table)
length-store s [] table = omega (arith, length-pop s table)
length-store s (x ∷ xs) table = length-put (record { source = s; latest = x; older = xs }) table

-- Nothing is evicted below the capacity.
evict_while-idle :
    (fuel : ℕ) (table : List Entry)
    → length table ≤ max_tracked_keys
    → evict_while fuel table ≡ table
unfolding evict_while
evict_while-idle zero table within = refl
evict_while-idle (suc fuel) table within =
    let idle : ltb max_tracked_keys (length table) ≡ false = ground arith in rw idle refl

pub record_failure-room :
    (now : ℕ) (source : String) (table : List Entry)
    → suc (length table) ≤ max_tracked_keys
    → record_failure now source table ≡ store source (now ∷ recent now table source) table
unfolding record_failure
record_failure-room now source table room =
    let e : Entry = record { source = source; latest = now; older = recent now table source } in
    evict_while-idle (length (put e table)) (put e table) (omega (arith, room, length-put e table))

-- A call adds one entry at most.
pub length-table_after :
    (calls : List Call)
    → length calls ≤ max_tracked_keys
    → length (table_after calls) ≤ length calls
unfolding allow reset
length-table_after [] room = omega arith
length-table_after (attempted t s ∷ calls) room =
    let before = table_after calls in
    omega (
      arith,
      length-store s (recent t before s) before,
      length-table_after calls (omega (arith, room)),
    )
length-table_after (failed t s ∷ calls) room =
    let before = table_after calls in
    let shorter = length-table_after calls (omega (arith, room)) in
    rw (record_failure-room t s before (omega (arith, room, shorter)))
      (omega (arith, shorter, length-store s (t ∷ recent t before s) before))
length-table_after (succeeded s ∷ calls) room =
    let before = table_after calls in
    omega (arith, length-pop s before, length-table_after calls (omega (arith, room)))
