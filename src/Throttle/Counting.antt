-- ===== src/Throttle/Counting.antt =====
-- What the throttle answers, against the history of the calls.
use text.Mathlib.Text.{◌==◌ as str_eq}
use text.Mathlib.TextEquality.{eq_iff}
use human_llm_gateway.Prelude.{
  ℕ, ◌≤◌, ◌≡◌, refl, ap, ◌∙◌, String, Bool, List, [], ◌∷◌, length, ltb, arith, Bool-cases, inl, inr,
}
use human_llm_gateway.Table.Rows.{select_where}
use human_llm_gateway.Throttle.Table.{
  Entry, stamps_of, is_recent, recent, store, allow, reset, max_failures, max_tracked_keys,
}
use human_llm_gateway.Throttle.History.{
  Call, attempted, failed, succeeded, table_after, failures_of, InOrder,
}
use human_llm_gateway.Throttle.Stamps.{
  narrowed, stamps-pop_same, stamps-pop_other, stamps-store_same, stamps-store_other,
  record_failure-room, length-table_after,
}

InOrder-later : (t now : ℕ) (calls : List Call) → t ≤ now → InOrder t calls → InOrder now calls
InOrder-later t now [] later h = tt
InOrder-later t now (attempted u s ∷ calls) later h = (omega (arith, later, h.0), h.1)
InOrder-later t now (failed u s ∷ calls) later h = (omega (arith, later, h.0), h.1)
InOrder-later t now (succeeded s ∷ calls) later h = InOrder-later t now calls later h

-- The stamps of a source that a call wrote, as seen from now.
seen_same :
    (now t : ℕ) (k s : String) (fresh : List ℕ) (table : List Entry)
    → k ≡ s
    → stamps_of (store k fresh table) s ≡ fresh
seen_same now t k s fresh table same =
    ap (λ j. stamps_of (store j fresh table) s) same ∙ stamps-store_same s fresh table

select-cons :
    (p : ℕ → Bool) (t : ℕ) (xs ys : List ℕ)
    → select_where p xs ≡ select_where p ys
    → select_where p (t ∷ xs) ≡ select_where p (t ∷ ys)
select-cons p t xs ys h = elim (Bool-cases (p t)) [
  | inl met ↦ rw (met, h) refl
  | inr other ↦ rw other h
]

-- The table and the history agree on what is recent.
recent-table_after :
    (now : ℕ) (source : String) (calls : List Call)
    → InOrder now calls
    → length calls ≤ max_tracked_keys
    → recent now (table_after calls) source
      ≡ select_where (is_recent now) (failures_of source calls)
unfolding allow reset
recent-table_after now source [] order room = refl
recent-table_after now source (attempted t k ∷ calls) order room =
    let before = table_after calls in
    let agree =
      recent-table_after now source calls (InOrder-later t now calls order.0 order.1)
        (omega (arith, room)) in
    elim (Bool-cases (str_eq k source)) [
      | inl same ↦
          let at_source = (eq_iff k source).0 same in
          ap (select_where (is_recent now)) (
            seen_same now t k source (recent t before k) before at_source
            ∙ ap (recent t before) at_source)
          ∙ (narrowed t now (stamps_of before source) order.0 ∙ agree)
      | inr apart ↦
          ap (select_where (is_recent now))
            (stamps-store_other k source (recent t before k) before apart)
          ∙ agree
    ]
recent-table_after now source (failed t k ∷ calls) order room =
    let before = table_after calls in
    let fewer = length-table_after calls (omega (arith, room)) in
    let agree =
      recent-table_after now source calls (InOrder-later t now calls order.0 order.1)
        (omega (arith, room)) in
    rw (record_failure-room t k before (omega (arith, room, fewer)))
      (elim (Bool-cases (str_eq k source)) [
        | inl same ↦
            let at_source = (eq_iff k source).0 same in
            ap (select_where (is_recent now)) (
              seen_same now t k source (t ∷ recent t before k) before at_source
              ∙ ap (λ j. t ∷ recent t before j) at_source)
            ∙ (select-cons (is_recent now) t (recent t before source) (failures_of source calls)
                  (narrowed t now (stamps_of before source) order.0 ∙ agree)
                ∙ rw same refl)
        | inr apart ↦
            ap (select_where (is_recent now))
              (stamps-store_other k source (t ∷ recent t before k) before apart)
            ∙ (agree ∙ rw apart refl)
      ])
recent-table_after now source (succeeded k ∷ calls) order room =
    let before = table_after calls in
    let agree = recent-table_after now source calls order (omega (arith, room)) in
    elim (Bool-cases (str_eq k source)) [
      | inl same ↦
          ap (λ j. recent now (reset j before) source) ((eq_iff k source).0 same)
          ∙ (ap (select_where (is_recent now)) (stamps-pop_same source before) ∙ rw same refl)
      | inr apart ↦
          ap (select_where (is_recent now)) (stamps-pop_other k source before apart)
          ∙ (agree ∙ rw apart refl)
    ]

-- After a history of calls in the order of their times, fifty thousand at most, a source may try
-- to log in exactly where fewer than ten failures of it since its last success are in the
-- window.
pub allow-history :
    (now : ℕ) (source : String) (calls : List Call)
    → InOrder now calls
    → length calls ≤ max_tracked_keys
    → (allow now source (table_after calls)).0
      ≡ ltb (length (select_where (is_recent now) (failures_of source calls))) max_failures
unfolding allow
allow-history now source calls order room =
    ap (λ xs. ltb (length xs) max_failures) (recent-table_after now source calls order room)
