-- ===== src/Table/Rows.antt =====
-- SQL statements over a list of rows. `UPDATE … WHERE` changes each row that meets the condition
-- and leaves the others; its `rowcount` is the number of such rows.
use human_llm_gateway.Prelude.{
  ℕ, ◌+◌, Bool, if◌then◌else◌, Option, none, some, List, [], ◌∷◌, bit, leb,
}

module _ {ℓ} {A : Type ℓ} where
  -- SELECT count(*) … WHERE
  abbrev pub count_where : (A → Bool) → List A → ℕ
  count_where p [] = 0
  count_where p (x ∷ xs) = bit (p x) + count_where p xs

  abbrev pub update_row : (A → Bool) → (A → A) → A → A
  update_row p f x = if p x then f x else x

  -- UPDATE … SET … WHERE
  abbrev pub update_where : (A → Bool) → (A → A) → List A → List A
  update_where p f [] = []
  update_where p f (x ∷ xs) = update_row p f x ∷ update_where p f xs

  -- SELECT … WHERE
  abbrev pub select_where : (A → Bool) → List A → List A
  select_where p [] = []
  select_where p (x ∷ xs) = let rest = select_where p xs in if p x then x ∷ rest else rest

  -- DELETE … WHERE
  abbrev pub delete_where : (A → Bool) → List A → List A
  delete_where p [] = []
  delete_where p (x ∷ xs) = let rest = delete_where p xs in if p x then rest else x ∷ rest

  -- session.get, scalar_one_or_none
  abbrev pub find_where : (A → Bool) → List A → Option A
  find_where p [] = none
  find_where p (x ∷ xs) = let rest = find_where p xs in if p x then some x else rest

  -- ORDER BY a numeric key, ascending; rows with equal keys keep their order.
  abbrev pub insert_by : (A → ℕ) → A → List A → List A
  insert_by key x [] = x ∷ []
  insert_by key x (y ∷ ys) =
      let rest = y ∷ ys in
      let later = y ∷ insert_by key x ys in if leb (key x) (key y) then x ∷ rest else later

  abbrev pub order_by : (A → ℕ) → List A → List A
  order_by key [] = []
  order_by key (x ∷ xs) = insert_by key x (order_by key xs)
