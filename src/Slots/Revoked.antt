-- ===== src/Slots/Revoked.antt =====
-- What `disable_user` of app/services/user_service.py leaves of the user.
use human_llm_gateway.Prelude.{
  ℕ, ◌≡◌, refl, Bool, true, false, ◌&&◌, ◌||◌, some, List, [], ◌∷◌, arith, ◌==◌, not,
}
use mathlib.Core.Path.{subst}
use human_llm_gateway.Model.Account.{User}
use human_llm_gateway.Model.Db.{Db}
use human_llm_gateway.Result.{ok, ok-injective, >>=-eq-ok, refuse_if-passed}
use human_llm_gateway.Table.Rows.{count_where, update_where, update_row}
use human_llm_gateway.Repositories.Tasks.{active_for_user, cancel_all_for_user, cancel_values}
use human_llm_gateway.Repositories.Users.{
  set_active, active_values, clear_active_task_count, clear_values,
}
use human_llm_gateway.Repositories.Accounts.{
  unrevoked_of, revoke_all_for_user, enabled_of, disable_all_for_user,
}
use human_llm_gateway.Services.Governance.{
  audit, ImpactCounts, revoke_everything, spare_admin, disable_user,
}

-- The user is inactive and holds no slot, or is another one.
abbrev pub is_out : ℕ → User → Bool
is_out i u = u.id == i && (u.is_active || not (u.active_task_count == 0))

-- Nothing of the user is left to act with: no slot or activity in the user's row, no session, no
-- key, no task that goes on.
pub record IsRevoked (i : ℕ) (db : Db) : Type 0 where
  pub user : count_where (is_out i) db.users ≡ 0
  pub sessions : count_where (unrevoked_of i) db.sessions ≡ 0
  pub keys : count_where (enabled_of i) db.api_keys ≡ 0
  pub tasks : count_where (active_for_user i) db.tasks ≡ 0

count-none {ℓ} :
    {A : Type ℓ} (p q : A → Bool) (f : A → A)
    → ((x : A) → q (update_row p f x) ≡ false)
    → (xs : List A) → count_where q (update_where p f xs) ≡ 0
count-none p q f h [] = refl
count-none p q f h (x ∷ xs) = rw (h x) (omega (arith, count-none p q f h xs))

revoked-users :
    (now i actor : ℕ) (us : List User)
    → count_where (is_out i) (
        update_where
          (λ (u : User). u.id == i)
          (clear_values now)
          (update_where (λ (u : User). u.id == i) (active_values now false (some actor)) us))
      ≡ 0
revoked-users now i actor [] = refl
revoked-users now i actor (u ∷ us) = ground (arith, revoked-users now i actor us)

pub revoke_everything-IsRevoked :
    (now i actor : ℕ) (db : Db) → IsRevoked i (revoke_everything now i actor db)
unfolding revoke_everything set_active revoke_all_for_user disable_all_for_user cancel_all_for_user
    clear_active_task_count audit
revoke_everything-IsRevoked now i actor db = record {
  user = revoked-users now i actor db.users;
  sessions = count-none (unrevoked_of i) (unrevoked_of i) _ (λ s. ground arith) db.sessions;
  keys = count-none (enabled_of i) (enabled_of i) _ (λ k. ground arith) db.api_keys;
  tasks =
      count-none (active_for_user i) (active_for_user i) (cancel_values "user_disabled" now)
        (λ t. ground arith) db.tasks;
}

-- A successful disable_user on a user whose loaded row is active leaves the stored user inactive
-- with no slot, and without an unrevoked session, an enabled key or a task that goes on.
pub disable_user-IsRevoked :
    (now : ℕ) (u : User) (actor : ℕ) (db : Db) {r : ImpactCounts × Db}
    → u.is_active ≡ true
    → disable_user now u actor db ≡ ok r
    → IsRevoked u.id r.1
unfolding disable_user
disable_user-IsRevoked now u actor db active h =
    let (_, h1) = refuse_if-passed (u.id == actor) _ _ (rw active at h) in
    let (_, _, h2) = >>=-eq-ok (spare_admin u db) _ h1 in
    subst (λ x. IsRevoked u.id x.1) (ok-injective h2)
      (revoke_everything-IsRevoked now u.id actor db)
