-- ===== src/Slots/Updates.antt =====
-- Two kinds of UPDATE on the task table: those that leave the slots alone, and those that release
-- the slot of one task, followed by the decrement of its owner's counter.
use human_llm_gateway.Prelude.{
  ℕ, ◌+◌, ◌≡◌, Bool, true, false, ◌&&◌, List, [], ◌∷◌, ◌==◌, is_none, bit, All, arith, inl, inr,
  Bool-cases,
}
use human_llm_gateway.Domain.States.{is_terminal}
use human_llm_gateway.Model.Task.{RequestTask}
use human_llm_gateway.Model.Account.{User}
use human_llm_gateway.Model.Db.{Db}
use human_llm_gateway.Table.Rows.{count_where, update_where}
use human_llm_gateway.Table.Counts.{
  count-update_loss, count-update_same, count_mono, count-le-add, All-update,
}
use human_llm_gateway.Repositories.Users
use human_llm_gateway.Slots.Invariant.{
  has_id, user_has_id, held_by, IsSettled, IsCounted, IsCapped, SlotsAccounted, IsAccounted,
  owned_elsewhere, IsOwner,
}

-- New values that no slot depends on.
pub record KeepsSlots (p : RequestTask → Bool) (f : RequestTask → RequestTask) : Type 0 where
  pub keeps_id : (t : RequestTask) → (f t).id ≡ t.id
  pub keeps_owner : (t : RequestTask) → (f t).owner_user_id ≡ t.owner_user_id
  pub keeps_released : (t : RequestTask) → (f t).slot_released_at ≡ t.slot_released_at
  pub keeps_end : (t : RequestTask) → p t ≡ true → is_terminal (f t).state ≡ is_terminal t.state

-- New values that end the one task with the key `i` and release its slot.
pub record Releases (i : ℕ) (p : RequestTask → Bool) (f : RequestTask → RequestTask) : Type 0 where
  pub targets : (t : RequestTask) → p t ≡ true → t.id ≡ i
  pub unreleased : (t : RequestTask) → p t ≡ true → is_none t.slot_released_at ≡ true
  pub keeps_id : (t : RequestTask) → (f t).id ≡ t.id
  pub keeps_owner : (t : RequestTask) → (f t).owner_user_id ≡ t.owner_user_id
  pub releases : (t : RequestTask) → is_none (f t).slot_released_at ≡ false
  pub ends : (t : RequestTask) → is_terminal (f t).state ≡ true

All-IsCounted :
    (xs ys : List RequestTask) (us : List User)
    → ((i : ℕ) → count_where (held_by i) xs ≡ count_where (held_by i) ys)
    → All (IsCounted ys) us
    → All (IsCounted xs) us
All-IsCounted xs ys [] same h = tt
All-IsCounted xs ys (u ∷ us) same h =
    (omega (arith, same u.id, h.0), All-IsCounted xs ys us same h.1)

abbrev leaving : (RequestTask → Bool) → ℕ → RequestTask → Bool
leaving p u t = p t && t.owner_user_id == u

module _ {p : RequestTask → Bool} {f : RequestTask → RequestTask} where
  pub update-keeps-SlotsAccounted :
      (db : Db)
      → KeepsSlots p f
      → IsAccounted db
      → SlotsAccounted (update_where p f db.tasks) db.users
  update-keeps-SlotsAccounted db k s = record {
    unique_tasks = λ i.
        rw (count-update_same p (has_id i) f (λ t. ground (arith, k.keeps_id t)) db.tasks)
          (s.unique_tasks i);
    unique_users = s.unique_users;
    settled =
        All-update IsSettled p f (λ t h. ground (arith, h, k.keeps_released t, k.keeps_end t))
          db.tasks s.settled;
    counted =
        All-IsCounted (update_where p f db.tasks) db.tasks db.users
          (λ i.
            count-update_same p (held_by i) f
              (λ t. ground (arith, k.keeps_owner t, k.keeps_released t)) db.tasks)
          s.counted;
    capped = s.capped;
  }

  leaving-count :
      (i o u : ℕ) (ts : List RequestTask)
      → Releases i p f
      → IsOwner o i ts
      → count_where p ts ≡ 1
      → count_where (leaving p u) ts ≡ bit (u == o)
  leaving-count i o u ts r own one = elim (Bool-cases (u == o)) [
    | inl same ↦ rw same (
        omega (
          arith,
          count-le-add p (leaving p u) (owned_elsewhere i o) ts (λ t. ground (arith, r.targets t)),
          count_mono (leaving p u) p ts (λ t. ground arith),
        ))
    | inr other ↦ rw other (
        omega (
          arith,
          count_mono (leaving p u) (owned_elsewhere i o) ts (λ t. ground (arith, r.targets t)),
        ))
  ]

  -- The slots of a user after the update, and the one that it lost if it is the owner's.
  pub held-after_release :
      (i o u : ℕ) (ts : List RequestTask)
      → Releases i p f
      → IsOwner o i ts
      → count_where p ts ≡ 1
      → count_where (held_by u) (update_where p f ts) + bit (u == o) ≡ count_where (held_by u) ts
  held-after_release i o u ts r own one = omega (
    arith,
    leaving-count i o u ts r own one,
    count-update_loss p (held_by u) (leaving p u) f
        (λ t. ground (arith, r.unreleased t, r.keeps_owner t, r.releases t)) ts,
  )

  release_users :
      (now i o : ℕ) (ts : List RequestTask) (us : List User)
      → Releases i p f
      → IsOwner o i ts
      → count_where p ts ≡ 1
      → All (IsCounted ts) us
      → All
          (IsCounted (update_where p f ts))
          (update_where (Users.release_condition o) (Users.release_values now) us)
  release_users now i o ts [] r own one h = tt
  release_users now i o ts (u ∷ us) r own one h = (
    ground (arith, h.0, held-after_release i o u.id ts r own one),
    release_users now i o ts us r own one h.1,
  )

  pub release-SlotsAccounted :
      (now i o : ℕ) (db : Db)
      → Releases i p f
      → IsOwner o i db.tasks
      → count_where p db.tasks ≡ 1
      → IsAccounted db
      → IsAccounted
          (Users.atomic_release_slot now o (record db { tasks = update_where p f db.tasks })).1
  unfolding Users.atomic_release_slot
  release-SlotsAccounted now i o db r own one s = record {
    unique_tasks = λ j.
        rw (count-update_same p (has_id j) f (λ t. ground (arith, r.keeps_id t)) db.tasks)
          (s.unique_tasks j);
    unique_users = λ j.
        rw
          (count-update_same (Users.release_condition o) (user_has_id j) (Users.release_values now)
            (λ u. ground arith) db.users)
          (s.unique_users j);
    settled =
        All-update IsSettled p f (λ t h. ground (arith, h, r.releases t, r.ends t)) db.tasks
          s.settled;
    counted = release_users now i o db.tasks db.users r own one s.counted;
    capped =
        All-update IsCapped (Users.release_condition o) (Users.release_values now)
          (λ u h. ground arith) db.users s.capped;
  }
