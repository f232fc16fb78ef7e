-- ===== src/Slots/Answers.antt =====
-- The answer of `acquire_slot` of app/services/admission.py on every branch.
use human_llm_gateway.Prelude.{
  ℕ, ◌+◌, some-injective, ◌≤◌, ◌≡◌, refl, Bool, true, false, ◌&&◌, some, List, [], ◌∷◌, arith, not,
  bit, ltb, inl, inr, Bool-cases, if◌then◌else◌,
}
use human_llm_gateway.Domain.Enums.{invalid_api_key, rate_limit_exceeded}
use human_llm_gateway.Model.Account.{User, ApiKey}
use human_llm_gateway.Model.Db.{Db}
use human_llm_gateway.Result.{Result, ok, raise}
use human_llm_gateway.Table.Rows.{count_where, find_where, update_where}
use human_llm_gateway.Table.Counts.{count_mono, update-unmatched}
use human_llm_gateway.Repositories.Users
use human_llm_gateway.Services.Admission.{acquire_slot, after_acquire, refuse_slot}
use human_llm_gateway.Slots.Invariant.{user_has_id}

-- A condition on the one row with the key holds once or not at all.
count-keyed {ℓ} :
    {A : Type ℓ} (q p : A → Bool) (xs : List A) (x : A)
    → count_where q xs ≤ 1
    → find_where q xs ≡ some x
    → count_where (λ y. q y && p y) xs ≡ bit (p x)
count-keyed q p [] x unique h = cc h
count-keyed q p (y ∷ ys) x unique h = elim (Bool-cases (q y)) [
  | inl key ↦ ground (arith, count_mono (λ z. q z && p z) q ys (λ z. ground arith))
  | inr other ↦ ground (arith, count-keyed q p ys x)
]

-- An update of the one row with the key, where that row meets the further condition.
update-keyed {ℓ} :
    {A : Type ℓ} (q p : A → Bool) (f : A → A) (xs : List A) (x : A)
    → count_where q xs ≤ 1
    → find_where q xs ≡ some x
    → p x ≡ true
    → update_where (λ y. q y && p y) f xs ≡ update_where q f xs
update-keyed q p f [] x unique found met = refl
update-keyed q p f (y ∷ ys) x unique found met = elim (Bool-cases (q y)) [
  | inl key ↦
      let only : count_where q ys ≡ 0 = ground arith in
      let here : p y ≡ true = rw (some-injective _ _ (rw key at found)) met in
      rw
        (
          key,
          here,
          update-unmatched (λ z. q z && p z) f ys
              (ground (arith, count_mono (λ z. q z && p z) q ys (λ z. ground arith))),
          update-unmatched q f ys only,
        )
        refl
  | inr other ↦ rw (other, update-keyed q p f ys x (ground arith) (rw other at found) met) refl
]

-- The user with that key has one more slot; all else is as it was.
abbrev pub with_slot : ℕ → ℕ → Db → Db
with_slot now i db = record db {
  users =
      update_where (user_has_id i)
        (λ v. record v { active_task_count = v.active_task_count + 1; updated_at = now }) db.users;
}

-- The loaded key is enabled, the stored owner is active and has a slot left.
abbrev pub answer : Bool → User → Db → Result Db
answer enabled owner taken =
    if not enabled
    then raise invalid_api_key 401
    else if not owner.is_active
    then raise invalid_api_key 401
    else if ltb owner.active_task_count 10
    then ok taken
    else raise rate_limit_exceeded 429

-- A full user is left as it was, so the second reading finds the same row.
full-refused :
    (now i : ℕ) (u : User) (db : Db)
    → u.is_active ≡ true
    → Users.get db i ≡ some u
    → count_where (Users.acquire_condition i) db.users ≡ 0
    → after_acquire i (false, (Users.atomic_acquire_slot now i db).1)
      ≡ raise rate_limit_exceeded 429
unfolding after_acquire refuse_slot Users.atomic_acquire_slot Users.get
full-refused now i u db active found none_met =
    rw
      (
        update-unmatched (Users.acquire_condition i) (Users.acquire_values now) db.users none_met,
        found,
        active,
      )
      refl

attempt :
    (now i : ℕ) (u : User) (db : Db)
    → u.is_active ≡ true
    → count_where (user_has_id i) db.users ≤ 1
    → Users.get db i ≡ some u
    → after_acquire i (Users.atomic_acquire_slot now i db) ≡ (
        if ltb u.active_task_count Users.max_active_tasks_per_user
        then ok (with_slot now i db)
        else raise rate_limit_exceeded 429)
unfolding Users.get Users.atomic_acquire_slot after_acquire
attempt now i u db active unique found =
    let met =
      count-keyed (user_has_id i)
        (λ v. v.is_active && ltb v.active_task_count Users.max_active_tasks_per_user) db.users u
        unique found in
    elim (Bool-cases (ltb u.active_task_count Users.max_active_tasks_per_user)) [
      | inl room ↦
          let one : count_where (Users.acquire_condition i) db.users ≡ 1 =
            rw (active, room) at met in
          rw
            (
              room,
              one,
              update-keyed (user_has_id i)
                  (λ v. v.is_active && ltb v.active_task_count Users.max_active_tasks_per_user)
                  (Users.acquire_values now) db.users u unique found (rw (active, room) refl),
            )
            refl
      | inr full ↦
          let zero : count_where (Users.acquire_condition i) db.users ≡ 0 =
            rw (active, full) at met in
          rw (full, zero) (full-refused now i u db active found zero)
    ]

-- For an owner with one row, acquire_slot refuses a disabled key and an inactive owner with 401,
-- adds one slot to the owner's row and changes nothing else but its time if the owner has fewer
-- than ten, and answers 429 otherwise.
pub acquire_slot_lem :
    (now i : ℕ) (key : ApiKey) (u : User) (db : Db)
    → count_where (user_has_id i) db.users ≤ 1
    → Users.get db i ≡ some u
    → acquire_slot now key i db ≡ answer key.is_enabled u (with_slot now i db)
unfolding acquire_slot
acquire_slot_lem now i key u db unique found = elim (Bool-cases key.is_enabled) [
  | inl enabled ↦ elim (Bool-cases u.is_active) [
    | inl active ↦ rw (enabled, found, active) (attempt now i u db active unique found)
    | inr inactive ↦ rw (enabled, found, inactive) refl
  ]
  | inr disabled ↦ rw disabled refl
]
