-- ===== src/Slots/Disabling.antt =====
-- The accounts of slots under `disable_user` and `enable_user` of app/services/user_service.py.
use human_llm_gateway.Prelude.{
  ℕ, ◌≡◌, refl, true, false, none, some, List, [], ◌∷◌, ◌==◌, arith, All, ◌⊎◌, inl, inr, Bool-cases,
}
use human_llm_gateway.Model.Task.{RequestTask}
use human_llm_gateway.Model.Account.{User}
use human_llm_gateway.Model.Db.{Db}
use human_llm_gateway.Result.{ok}
use human_llm_gateway.Table.Rows.{count_where, update_where}
use human_llm_gateway.Table.Counts.{count-update_same, All-update}
use human_llm_gateway.Repositories.Tasks
use human_llm_gateway.Repositories.Users
use human_llm_gateway.Repositories.Accounts.{revoke_all_for_user, disable_all_for_user}
use human_llm_gateway.Services.Governance.{
  ImpactCounts, disable_user, enable_user, revoke_everything, audit,
}
use human_llm_gateway.Slots.Invariant.{
  has_id, user_has_id, held_by, IsSettled, IsCounted, IsCapped, IsAccounted,
}

module _ (now u : ℕ) where
  abbrev ended : List RequestTask → List RequestTask
  ended = update_where (Tasks.active_for_user u) (Tasks.cancel_values "user_disabled" now)

  -- No task of the user holds a slot any more.
  pub held-ended :
      (ts : List RequestTask) → All IsSettled ts → count_where (held_by u) (ended ts) ≡ 0
  held-ended [] h = refl
  held-ended (t ∷ ts) h = ground (arith, h.0, held-ended ts h.1)

  pub held-ended_other :
      (v : ℕ) (ts : List RequestTask)
      → (v == u) ≡ false
      → count_where (held_by v) (ended ts) ≡ count_where (held_by v) ts
  held-ended_other v ts other =
      count-update_same (Tasks.active_for_user u) (held_by v)
        (Tasks.cancel_values "user_disabled" now) (λ t. ground arith) ts

  abbrev disabled_users : ℕ → List User → List User
  disabled_users actor us =
      update_where (user_has_id u) (Users.clear_values now)
        (update_where (user_has_id u) (Users.active_values now false (some actor)) us)

  disabled-IsCounted :
      (actor : ℕ) (ts : List RequestTask) (us : List User)
      → All IsSettled ts
      → All (IsCounted ts) us
      → All (IsCounted (ended ts)) (disabled_users actor us)
  disabled-IsCounted actor ts [] settled h = tt
  disabled-IsCounted actor ts (v ∷ us) settled h = (
    ground (arith, h.0, held-ended ts settled, held-ended_other v.id ts),
    disabled-IsCounted actor ts us settled h.1,
  )

  pub revoke_everything-IsAccounted :
      (actor : ℕ) (db : Db) → IsAccounted db → IsAccounted (revoke_everything now u actor db)
  unfolding revoke_everything Users.set_active revoke_all_for_user disable_all_for_user
      Tasks.cancel_all_for_user Users.clear_active_task_count audit
  revoke_everything-IsAccounted actor db s = record {
    unique_tasks = λ i.
        rw
          (count-update_same (Tasks.active_for_user u) (has_id i)
            (Tasks.cancel_values "user_disabled" now) (λ t. ground arith) db.tasks)
          (s.unique_tasks i);
    unique_users = λ i.
        rw
          (
            count-update_same (user_has_id u) (user_has_id i) (Users.clear_values now)
                (λ v. ground arith)
                (update_where (user_has_id u) (Users.active_values now false (some actor))
                  db.users),
            count-update_same (user_has_id u) (user_has_id i)
                (Users.active_values now false (some actor)) (λ v. ground arith) db.users,
          )
          (s.unique_users i);
    settled =
        All-update IsSettled (Tasks.active_for_user u) (Tasks.cancel_values "user_disabled" now)
          (λ t h. ground (arith, h)) db.tasks s.settled;
    counted = disabled-IsCounted actor db.tasks db.users s.settled s.counted;
    capped =
        All-update IsCapped (user_has_id u) (Users.clear_values now) (λ v h. ground (arith, h))
          (update_where (user_has_id u) (Users.active_values now false (some actor)) db.users)
          (All-update IsCapped (user_has_id u) (Users.active_values now false (some actor))
            (λ v h. ground (arith, h)) db.users s.capped);
  }

-- A call that is not refused leaves the database alone, or runs the whole transaction.
pub disable_user_cases :
    (now : ℕ) (u : User) (actor : ℕ) (db : Db) {r : ImpactCounts × Db}
    → disable_user now u actor db ≡ ok r
    → (r.1 ≡ db) ⊎ (r.1 ≡ revoke_everything now u.id actor db)
unfolding disable_user
disable_user_cases now u actor db h = ground arith

-- A successful disable_user on an accounted database leaves the accounts standing.
pub disable_user-IsAccounted :
    (now : ℕ) (u : User) (actor : ℕ) (db : Db) {r : ImpactCounts × Db}
    → disable_user now u actor db ≡ ok r
    → IsAccounted db
    → IsAccounted r.1
disable_user-IsAccounted now u actor db h s = elim (disable_user_cases now u actor db h) [
  | inl same ↦ rw same s
  | inr ran ↦ rw ran (revoke_everything-IsAccounted now u.id actor db s)
]

pub enable_user-IsAccounted :
    (now : ℕ) (u : User) (actor : ℕ) (db : Db)
    → IsAccounted db
    → IsAccounted (enable_user now u actor db)
unfolding enable_user Users.set_active audit
enable_user-IsAccounted now u actor db s = elim (Bool-cases u.is_active) [
  | inl active ↦ rw active s
  | inr inactive ↦ rw inactive (record {
    unique_tasks = s.unique_tasks;
    unique_users = λ i.
        rw
          (count-update_same (user_has_id u.id) (user_has_id i) (Users.active_values now true none)
            (λ v. ground arith) db.users)
          (s.unique_users i);
    settled = s.settled;
    counted =
        All-update (IsCounted db.tasks) (user_has_id u.id) (Users.active_values now true none)
          (λ v e. ground (arith, e)) db.users s.counted;
    capped =
        All-update IsCapped (user_has_id u.id) (Users.active_values now true none)
          (λ v h. ground (arith, h)) db.users s.capped;
  })
]
