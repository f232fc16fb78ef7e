-- ===== src/Table/Keys.antt =====
-- Rows that an UPDATE finds by key and by a further condition.
use human_llm_gateway.Prelude.{
  ◌≤◌, ◌≡◌, refl, ap, bit, some-injective, none-ne-some, Bool, true, false, some, List, [], ◌∷◌,
  inl, inr, arith, Bool-cases,
}
use human_llm_gateway.Table.Rows.{count_where, update_row, find_where}
use human_llm_gateway.Table.Counts.{count_mono}

found-behind {ℓ} :
    {A : Type ℓ} (q : A → Bool) (x : A) (xs : List A) {y : A}
    → q x ≡ false
    → find_where q xs ≡ some y
    → find_where q (x ∷ xs) ≡ some y
found-behind q x xs elsewhere found = rw elsewhere found

-- The one row that a narrower condition meets is the one with the key.
pub matched_row {ℓ} :
    {A : Type ℓ} (p q : A → Bool) (xs : List A)
    → ((x : A) → p x ≡ true → q x ≡ true)
    → count_where p xs ≡ 1
    → count_where q xs ≤ 1
    → (x : A) × (find_where q xs ≡ some x) × (p x ≡ true)
matched_row p q [] h one unique = absurd (omega (arith, one))
matched_row p q (x ∷ xs) h one unique = elim (Bool-cases (p x)) [
  | inl met ↦ (x, rw (h x met) refl, met)
  | inr other ↦ elim (Bool-cases (q x)) [
    | inl key ↦ absurd (
        omega
          (arith, rw other at one, rw key at unique, count_mono p q xs (λ y. ground (arith, h y))))
    | inr elsewhere ↦
        let (y, found, met) =
          matched_row p q xs h (omega (arith, rw other at one))
            (omega (arith, rw elsewhere at unique)) in
        (y, found-behind q x xs elsewhere found, met)
  ]
]

pub updated_met {ℓ} :
    {A : Type ℓ} (p : A → Bool) (f : A → A) (x : A) → p x ≡ true → update_row p f x ≡ f x
updated_met p f x met = rw met refl

not_met {ℓ} :
    {A : Type ℓ} (p q : A → Bool) (x : A)
    → ((x : A) → p x ≡ true → q x ≡ true)
    → q x ≡ false
    → p x ≡ false
not_met p q x narrow other = ground (arith, narrow x)

-- A narrower condition that the only row with the key does not meet is met by none.
pub lone-unmet {ℓ} :
    {A : Type ℓ} (p q : A → Bool) (xs : List A) (o : A)
    → ((x : A) → p x ≡ true → q x ≡ true)
    → count_where q xs ≤ 1
    → find_where q xs ≡ some o
    → p o ≡ false
    → count_where p xs ≡ 0
lone-unmet p q [] o narrow unique found unmet = refl
lone-unmet p q (x ∷ xs) o narrow unique found unmet = elim (Bool-cases (q x)) [
  | inl key ↦
      let same : x ≡ o = some-injective x o (rw key at found) in
      omega (
        arith,
        ap (λ y. bit (p y)) same,
        ap bit unmet,
        rw key at unique,
        count_mono p q xs (λ y. ground (arith, narrow y)),
      )
  | inr other ↦ omega (
    arith,
    ap bit (not_met p q x narrow other),
    lone-unmet p q xs o narrow (omega (arith, rw other at unique)) (rw other at found) unmet,
  )
]

-- The only row with the key meets a narrower condition.
pub lone-met {ℓ} :
    {A : Type ℓ} (p q : A → Bool) (xs : List A) (o : A)
    → ((x : A) → p x ≡ true → q x ≡ true)
    → count_where q xs ≤ 1
    → find_where q xs ≡ some o
    → p o ≡ true
    → count_where p xs ≡ 1
lone-met p q [] o narrow unique found met = absurd (none-ne-some o found)
lone-met p q (x ∷ xs) o narrow unique found met = elim (Bool-cases (q x)) [
  | inl key ↦
      let same : x ≡ o = some-injective x o (rw key at found) in
      omega (
        arith,
        ap (λ y. bit (p y)) same,
        ap bit met,
        rw key at unique,
        count_mono p q xs (λ y. ground (arith, narrow y)),
      )
  | inr other ↦ omega (
    arith,
    ap bit (not_met p q x narrow other),
    lone-met p q xs o narrow (omega (arith, rw other at unique)) (rw other at found) met,
  )
]
