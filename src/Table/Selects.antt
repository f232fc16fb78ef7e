-- ===== src/Table/Selects.antt =====
-- What a SELECT with a condition returns, against the count of that condition.
use human_llm_gateway.Prelude.{
  ℕ, suc, ◌≤◌, ◌≡◌, refl, Bool, true, false, ◌&&◌, List, [], ◌∷◌, take, arith, bit, ◌+◌, length,
  Bool-cases, inl, inr, All,
}
use human_llm_gateway.Table.Rows.{count_where, select_where, update_where, insert_by, order_by}

module _ {ℓ} {A : Type ℓ} where
  -- Nothing selected: no row meets the condition.
  pub select-empty :
      (p : A → Bool) (n : ℕ) (xs : List A)
      → take (suc n) (select_where p xs) ≡ []
      → count_where p xs ≡ 0
  select-empty p n [] h = refl
  select-empty p n (x ∷ xs) h = elim (Bool-cases (p x)) [
    | inl e ↦ ground arith
    | inr e ↦ ground (arith, select-empty p n xs)
  ]

  -- The first selected row meets the condition and is one of the rows.
  pub count-select_head :
      (p q : A → Bool) (n : ℕ) (xs : List A) (t : A) (ts : List A)
      → q t ≡ true
      → take (suc n) (select_where p xs) ≡ t ∷ ts
      → 1 ≤ count_where (λ x. q x && p x) xs
  count-select_head p q n [] t ts here h = cc
  count-select_head p q n (x ∷ xs) t ts here h = elim (Bool-cases (p x)) [
    | inl e ↦ ground arith
    | inr e ↦ ground (arith, count-select_head p q n xs t ts)
  ]

  pub length-select : (p : A → Bool) (xs : List A) → length (select_where p xs) ≡ count_where p xs
  length-select p [] = refl
  length-select p (x ∷ xs) = ground (arith, length-select p xs)

  -- ORDER BY keeps how many rows meet a condition.
  pub count-insert_by :
      (p : A → Bool) (key : A → ℕ) (x : A) (xs : List A)
      → count_where p (insert_by key x xs) ≡ bit (p x) + count_where p xs
  count-insert_by p key x [] = refl
  count-insert_by p key x (y ∷ ys) = ground (arith, count-insert_by p key x ys)

  pub count-order_by :
      (p : A → Bool) (key : A → ℕ) (xs : List A)
      → count_where p (order_by key xs) ≡ count_where p xs
  count-order_by p key [] = refl
  count-order_by p key (x ∷ xs) =
      omega (arith, count-insert_by p key x (order_by key xs), count-order_by p key xs)

  -- An UPDATE of rows that are not selected, before or after.
  pub select-update :
      (q p : A → Bool) (f : A → A) (xs : List A)
      → ((x : A) → p x ≡ true → q x ≡ false)
      → ((x : A) → p x ≡ true → q (f x) ≡ false)
      → select_where q (update_where p f xs) ≡ select_where q xs
  select-update q p f [] before after = refl
  select-update q p f (x ∷ xs) before after = elim (Bool-cases (p x)) [
    | inl met ↦ rw (met, before x met, after x met) (select-update q p f xs before after)
    | inr other ↦ rw (other, select-update q p f xs before after) refl
  ]

  -- Selected rows meet the condition.
  pub select-All {κ} :
      (P : A → Type κ) (p : A → Bool) (xs : List A)
      → ((x : A) → p x ≡ true → P x)
      → All P (select_where p xs)
  select-All P p [] h = tt
  select-All P p (x ∷ xs) h = elim (Bool-cases (p x)) [
    | inl met ↦ rw met (h x met, select-All P p xs h)
    | inr other ↦ rw other (select-All P p xs h)
  ]
