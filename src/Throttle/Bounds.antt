-- ===== src/Throttle/Bounds.antt =====
-- The size of the table of failures (app/core/login_throttle.py).
use text.Mathlib.Text.{◌==◌ as str_eq}
use text.Mathlib.TextPositions.{eq_refl}
use human_llm_gateway.Prelude.{
  ℕ, zero, suc, ◌+◌, ◌≤◌, ◌≡◌, refl, ap, String, Bool, true, Option, none, some, List, [], ◌∷◌,
  length, ltb, leb, ◌∙◌, some-injective, none-ne-some, arith, Bool-cases, inl, inr, bit,
}
use human_llm_gateway.Table.Rows.{count_where, delete_where}
use human_llm_gateway.Throttle.Table.{
  Entry, put, older_of, oldest, evict_oldest, evict_while, max_tracked_keys, recent, record_failure,
}

-- The rows that a DELETE leaves.
length-delete {ℓ} :
    {A : Type ℓ} (p : A → Bool) (xs : List A)
    → length (delete_where p xs) + count_where p xs ≡ length xs
length-delete p [] = refl
length-delete p (x ∷ xs) = ground (arith, length-delete p xs)

older_of-member :
    (p : Entry → Bool) (e : Entry) (o : Option Entry) (es : List Entry)
    → ((x : Entry) → o ≡ some x → p x ≡ true → 1 ≤ count_where p es)
    → p (older_of e o) ≡ true
    → 1 ≤ count_where p (e ∷ es)
older_of-member p e none es inner met = omega (arith, ap bit met)
older_of-member p e (some x) es inner met = elim (Bool-cases (leb e.latest x.latest)) [
  | inl first ↦ omega (arith, ap bit (rw first at met))
  | inr later ↦ omega (arith, inner x refl (rw later at met))
]

-- The oldest entry is one of them.
oldest-member :
    (p : Entry → Bool) (es : List Entry) (x : Entry)
    → oldest es ≡ some x
    → p x ≡ true
    → 1 ≤ count_where p es
oldest-member p [] x found met = absurd (none-ne-some x found)
oldest-member p (e ∷ es) x found met =
    older_of-member p e (oldest es) es (oldest-member p es)
      (ap p (some-injective (older_of e (oldest es)) x found) ∙ met)

evict-shorter :
    (table : List Entry) → 1 ≤ length table → suc (length (evict_oldest table)) ≤ length table
unfolding evict_oldest
evict-shorter [] some_entry = absurd (omega arith)
evict-shorter (e ∷ es) some_entry =
    let x = older_of e (oldest es) in
    let here = λ (y : Entry). str_eq y.source x.source in
    omega
      (arith, length-delete here (e ∷ es), oldest-member here (e ∷ es) x refl (eq_refl x.source))

-- One round for each entry is enough.
evict_while-bounded :
    (fuel : ℕ) (table : List Entry)
    → length table ≤ fuel
    → length (evict_while fuel table) ≤ max_tracked_keys
unfolding evict_while
evict_while-bounded zero table enough = omega (arith, enough)
evict_while-bounded (suc fuel) table enough =
    elim (Bool-cases (ltb max_tracked_keys (length table))) [
      | inl over ↦ rw over (
          evict_while-bounded fuel (evict_oldest table)
            (omega (arith, enough, evict-shorter table (ground arith))))
      | inr within ↦ rw within (ground arith)
    ]

-- After a recorded failure the table has fifty thousand sources at most, whatever it had before,
-- so the fuel of one round for an entry is enough.
pub record_failure-bounded :
    (now : ℕ) (source : String) (table : List Entry)
    → length (record_failure now source table) ≤ max_tracked_keys
unfolding record_failure
record_failure-bounded now source table =
    let failed =
      put (record { source = source; latest = now; older = recent now table source }) table in
    evict_while-bounded (length failed) failed (omega arith)
