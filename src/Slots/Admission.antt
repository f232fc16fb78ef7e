-- ===== src/Slots/Admission.antt =====
-- Taking a slot and adding the task that holds it.
use human_llm_gateway.Prelude.{ℕ, ◌≤◌, ◌≡◌, Bool, ◌&&◌, not, List, [], ◌∷◌, ◌==◌, none, All, arith}
use human_llm_gateway.Model.Task.{RequestTask}
use human_llm_gateway.Model.Account.{User, ApiKey}
use human_llm_gateway.Model.Db.{Db}
use human_llm_gateway.Result.{ok}
use human_llm_gateway.Table.Rows.{count_where, update_where}
use human_llm_gateway.Table.Counts.{count-update_same, count-add_eq, All-update}
use human_llm_gateway.Repositories.Users
use human_llm_gateway.Services.Admission.{acquire_slot}
use human_llm_gateway.Slots.Invariant.{
  has_id, user_has_id, IsSettled, IsCounted, IsCapped, SlotsAccounted, IsAccounted,
}

abbrev unmatched : ℕ → User → Bool
unmatched o u = u.id == o && not (Users.acquire_condition o u)

unmatched-zero :
    (o : ℕ) (us : List User)
    → count_where (user_has_id o) us ≤ 1
    → count_where (Users.acquire_condition o) us ≡ 1
    → count_where (unmatched o) us ≡ 0
unmatched-zero o us h one = omega (
  arith,
  count-add_eq (Users.acquire_condition o) (unmatched o) (user_has_id o) us (λ u. ground arith),
)

acquired_users :
    (now : ℕ) (task : RequestTask) (ts : List RequestTask) (us : List User)
    → task.slot_released_at ≡ none
    → count_where (unmatched task.owner_user_id) us ≡ 0
    → All (IsCounted ts) us
    → All
        (IsCounted (task ∷ ts))
        (update_where (Users.acquire_condition task.owner_user_id) (Users.acquire_values now) us)
acquired_users now task ts [] held zero_left h = tt
acquired_users now task ts (u ∷ us) held zero_left h =
    (ground (arith, h.0, held), acquired_users now task ts us held (omega arith) h.1)

-- What a successful acquisition did: one user row met the condition, and gained a slot.
pub record Acquired (now o : ℕ) (db db' : Db) : Type 0 where
  pub met : count_where (Users.acquire_condition o) db.users ≡ 1
  pub tasks : db'.tasks ≡ db.tasks
  pub users :
      db'.users ≡ update_where (Users.acquire_condition o) (Users.acquire_values now) db.users

pub acquire_slot-Acquired :
    (now : ℕ) (key : ApiKey) (o : ℕ) (db : Db) {db' : Db}
    → acquire_slot now key o db ≡ ok db'
    → Acquired now o db db'
unfolding acquire_slot Users.atomic_acquire_slot
acquire_slot-Acquired now key o db h = ground arith

pub acquire-add-SlotsAccounted :
    (now : ℕ) (task : RequestTask) (db db' : Db)
    → Acquired now task.owner_user_id db db'
    → task.slot_released_at ≡ none
    → IsSettled task
    → count_where (has_id task.id) db.tasks ≡ 0
    → IsAccounted db
    → SlotsAccounted (task ∷ db'.tasks) db'.users
acquire-add-SlotsAccounted now task db db' a held settled fresh s =
    rw (a.tasks, a.users)
      (record {
        unique_tasks = λ i. ground (arith, s.unique_tasks i);
        unique_users = λ i.
            rw
              (count-update_same (Users.acquire_condition task.owner_user_id) (user_has_id i)
                (Users.acquire_values now) (λ u. ground arith) db.users)
              (s.unique_users i);
        settled = (settled, s.settled);
        counted =
            acquired_users now task db.tasks db.users held
              (unmatched-zero task.owner_user_id db.users (s.unique_users task.owner_user_id) a.met)
              s.counted;
        capped =
            All-update IsCapped (Users.acquire_condition task.owner_user_id)
              (Users.acquire_values now) (λ u h. ground arith) db.users s.capped;
      })
