-- ===== src/Table/Counts.antt =====
-- How `UPDATE … WHERE` changes the count of another condition, and which predicates it keeps.
use human_llm_gateway.Prelude.{
  ◌+◌, ◌≤◌, ◌≡◌, Bool, true, List, [], ◌∷◌, ◌++◌, bit, All, arith, none, some, refl, Bool-cases,
  inl, inr,
}
use mathlib.Core.Option
use mathlib.Core.Path.{subst}
use human_llm_gateway.Table.Rows.{count_where, update_row, update_where, find_where, delete_where}

module _ {ℓ} {A : Type ℓ} where
  -- The rows that leave the condition `q`, counted by `r`.
  pub count-update_loss :
      (p q r : A → Bool) (f : A → A)
      → ((x : A) → bit (q (update_row p f x)) + bit (r x) ≡ bit (q x))
      → (xs : List A) → count_where q (update_where p f xs) + count_where r xs ≡ count_where q xs
  count-update_loss p q r f step [] = omega arith
  count-update_loss p q r f step (x ∷ xs) = omega (arith, step x, count-update_loss p q r f step xs)

  -- An update that no row shows to the condition `q`.
  pub count-update_same :
      (p q : A → Bool) (f : A → A)
      → ((x : A) → q (update_row p f x) ≡ q x)
      → (xs : List A) → count_where q (update_where p f xs) ≡ count_where q xs
  count-update_same p q f step [] = omega arith
  count-update_same p q f step (x ∷ xs) =
      rw (step x) (omega (arith, count-update_same p q f step xs))

  pub count_mono :
      (p q : A → Bool) (xs : List A)
      → ((x : A) → bit (p x) ≤ bit (q x))
      → count_where p xs ≤ count_where q xs
  count_mono p q [] h = omega arith
  count_mono p q (x ∷ xs) h = omega (arith, h x, count_mono p q xs h)

  pub count-append :
      (p : A → Bool) (xs ys : List A)
      → count_where p (xs ++ ys) ≡ count_where p xs + count_where p ys
  count-append p [] ys = omega arith
  count-append p (x ∷ xs) ys = omega (arith, count-append p xs ys)

  pub All-update {κ} :
      (P : A → Type κ) (p : A → Bool) (f : A → A)
      → ((x : A) → P x → P (update_row p f x))
      → (xs : List A) → All P xs
      → All P (update_where p f xs)
  All-update P p f step [] h = tt
  All-update P p f step (x ∷ xs) h = (step x h.0, All-update P p f step xs h.1)

  pub count-le-add :
      (p q r : A → Bool) (xs : List A)
      → ((x : A) → bit (p x) ≤ bit (q x) + bit (r x))
      → count_where p xs ≤ count_where q xs + count_where r xs
  count-le-add p q r [] h = omega arith
  count-le-add p q r (x ∷ xs) h = omega (arith, h x, count-le-add p q r xs h)

  -- An UPDATE that meets no row changes nothing.
  pub update-unmatched :
      (p : A → Bool) (f : A → A) (xs : List A) → count_where p xs ≡ 0 → update_where p f xs ≡ xs
  update-unmatched p f [] h = refl
  update-unmatched p f (x ∷ xs) h = ground (arith, update-unmatched p f xs)

  pub count-delete-le :
      (p q : A → Bool) (xs : List A) → count_where q (delete_where p xs) ≤ count_where q xs
  count-delete-le p q [] = omega arith
  count-delete-le p q (x ∷ xs) = ground (arith, count-delete-le p q xs)

  -- What a lookup by a condition returns meets it, and is the only such row where that is unique.
  pub find-meets : (p : A → Bool) (xs : List A) (x : A) → find_where p xs ≡ some x → p x ≡ true
  find-meets p [] x h = cc
  find-meets p (y ∷ ys) x h = ground (arith, find-meets p ys x)

  pub find-none : (p : A → Bool) (xs : List A) → find_where p xs ≡ none → count_where p xs ≡ 0
  find-none p [] h = refl
  find-none p (y ∷ ys) h = ground (arith, find-none p ys)

  pub count-add_eq :
      (p q r : A → Bool) (xs : List A)
      → ((x : A) → bit (p x) + bit (q x) ≡ bit (r x))
      → count_where p xs + count_where q xs ≡ count_where r xs
  count-add_eq p q r [] h = omega arith
  count-add_eq p q r (x ∷ xs) h = omega (arith, h x, count-add_eq p q r xs h)

  -- A lookup after an UPDATE finds the row that it found before, with its new values.
  pub find-update :
      (q p : A → Bool) (f : A → A) (xs : List A)
      → ((x : A) → q (update_row p f x) ≡ q x)
      → find_where q (update_where p f xs) ≡ Option.map (update_row p f) (find_where q xs)
  find-update q p f [] h = refl
  find-update q p f (x ∷ xs) h = elim (Bool-cases (q x)) [
    | inl e ↦ rw (h x, e)
    | inr e ↦ rw (h x, e) (find-update q p f xs h)
  ]

  pub All-find {κ} :
      (P : A → Type κ) (p : A → Bool) (xs : List A) (x : A)
      → All P xs
      → find_where p xs ≡ some x
      → P x
  All-find P p [] x h e = cc
  All-find P p (y ∷ ys) x h e = elim (Bool-cases (p y)) [
    | inl met ↦ let same : y ≡ x = ground arith in subst P same h.0
    | inr other ↦ All-find P p ys x h.1 (ground arith)
  ]

  -- Two conditions that agree on every row with a property count alike.
  pub count-All_same {κ} :
      (P : A → Type κ) (p q : A → Bool) (xs : List A)
      → ((x : A) → P x → p x ≡ q x)
      → All P xs
      → count_where p xs ≡ count_where q xs
  count-All_same P p q [] same h = refl
  count-All_same P p q (x ∷ xs) same h =
      rw (same x h.0) (omega (arith, count-All_same P p q xs same h.1))

  pub count-pos_of_find :
      (p : A → Bool) (xs : List A) (x : A) → find_where p xs ≡ some x → 1 ≤ count_where p xs
  count-pos_of_find p [] x e = cc
  count-pos_of_find p (y ∷ ys) x e = ground (arith, count-pos_of_find p ys x)
