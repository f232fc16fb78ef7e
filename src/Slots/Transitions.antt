-- ===== src/Slots/Transitions.antt =====
-- The accounts of slots under the calls of app/services/inference_service.py and the replies.
use human_llm_gateway.Prelude.{
  ℕ, ◌≤◌, ◌≡◌, refl, sym, ◌∙◌, String, Bool, true, false, Option, none, some, List, [], ◌∷◌, ◌==◌,
  arith, Bool-cases, ==_iff, inl, inr,
}
use human_llm_gateway.Domain.Enums.{TaskState, waiting_human, forwarding_llm, same_state_sound}
use human_llm_gateway.Domain.States.{is_terminal}
use human_llm_gateway.Model.Task.{RequestTask}
use human_llm_gateway.Model.Db.{Db}
use mathlib.Core.Path.{subst}
use human_llm_gateway.Result.{ok, err, value_error, ok-injective}
use human_llm_gateway.Table.Rows.{count_where, update_where, find_where}
use human_llm_gateway.Table.Counts.{update-unmatched, count_mono, count-update_same, find-none}
use human_llm_gateway.Repositories.Tasks
use human_llm_gateway.Services.Admission.{release_slot}
use human_llm_gateway.Services.Delivery.{add_event}
use human_llm_gateway.Services.Inference.{
  finalize, cancel_caller_disconnected, mark_responding, set_public_error, after_release,
  release_of, public_code_of,
}
use human_llm_gateway.Slots.Invariant.{has_id, IsAccounted, IsOwner, owned_elsewhere}
use human_llm_gateway.Slots.Updates.{
  KeepsSlots, Releases, update-keeps-SlotsAccounted, release-SlotsAccounted,
}

reply-KeepsSlots :
    (state : TaskState) (i o v : ℕ) (payload : String) (now : ℕ)
    → is_terminal state ≡ false
    → KeepsSlots (Tasks.reply_condition state i o v) (Tasks.reply_values payload now)
reply-KeepsSlots state i o v payload now h = record {
  keeps_id = λ t. refl;
  keeps_owner = λ t. refl;
  keeps_released = λ t. refl;
  keeps_end = λ t m. rw (same_state_sound t.state state (ground arith)) (sym h);
}

claim-KeepsSlots : (i now : ℕ) → KeepsSlots (Tasks.claim_condition i) (Tasks.claim_values now)
claim-KeepsSlots i now = record {
  keeps_id = λ t. refl;
  keeps_owner = λ t. refl;
  keeps_released = λ t. refl;
  keeps_end = λ t m. ground arith;
}

start-KeepsSlots : (i now : ℕ) → KeepsSlots (Tasks.start_condition i) (Tasks.start_values now)
start-KeepsSlots i now = record {
  keeps_id = λ t. refl;
  keeps_owner = λ t. refl;
  keeps_released = λ t. refl;
  keeps_end = λ t m. ground arith;
}

terminal-Releases :
    (i : ℕ) (sources : Option (List TaskState)) (state : TaskState) (now : ℕ)
    → is_terminal state ≡ true
    → Releases i (Tasks.release_condition i sources) (Tasks.terminal_values state now)
terminal-Releases i sources state now h = record {
  targets = λ t m. ground arith;
  unreleased = λ t m. ground arith;
  keeps_id = λ t. refl;
  keeps_owner = λ t. refl;
  releases = λ t. refl;
  ends = λ t. h;
}

cancel-Releases :
    (i : ℕ) (reason : String) (now : ℕ)
    → Releases i (Tasks.cancel_condition i) (Tasks.cancel_values reason now)
cancel-Releases i reason now = record {
  targets = λ t m. ground arith;
  unreleased = λ t m. ground arith;
  keeps_id = λ t. refl;
  keeps_owner = λ t. refl;
  releases = λ t. refl;
  ends = λ t. refl;
}

-- A condition that names one key meets at most one row, so an UPDATE that did not change exactly
-- one row changed none.
met_once :
    (i : ℕ) (p : RequestTask → Bool) (ts : List RequestTask)
    → ((t : RequestTask) → p t ≡ true → t.id ≡ i)
    → count_where (has_id i) ts ≤ 1
    → count_where p ts ≤ 1
met_once i p ts h unique = omega (arith, count_mono p (has_id i) ts (λ t. ground (arith, h t)))

unmet :
    (i : ℕ) (p : RequestTask → Bool) (f : RequestTask → RequestTask) (ts : List RequestTask)
    → ((t : RequestTask) → p t ≡ true → t.id ≡ i)
    → count_where (has_id i) ts ≤ 1
    → (count_where p ts == 1) ≡ false
    → update_where p f ts ≡ ts
unmet i p f ts h unique other = update-unmatched p f ts (ground (arith, met_once i p ts h unique))

set_public_error-IsAccounted :
    (now i : ℕ) (code : Option String) (db : Db)
    → IsAccounted db
    → IsAccounted (set_public_error now i code db)
unfolding set_public_error
set_public_error-IsAccounted now i none db s = s
set_public_error-IsAccounted now i (some code) db s =
    update-keeps-SlotsAccounted db
      (record {
        keeps_id = λ t. refl;
        keeps_owner = λ t. refl;
        keeps_released = λ t. refl;
        keeps_end = λ t m. refl;
      })
      s

pub after_release-IsAccounted :
    (now : ℕ) (task : RequestTask) (state : TaskState) (public_error : Option String) (done : Bool)
    (db : Db)
    → (done ≡ true → IsAccounted (release_slot now task.owner_user_id db))
    → (done ≡ false → IsAccounted db)
    → IsAccounted (after_release now task state public_error (done, db)).1
unfolding after_release add_event
after_release-IsAccounted now task state public_error true db released kept =
    set_public_error-IsAccounted now task.id (public_code_of public_error state)
      (release_slot now task.owner_user_id db) (released refl)
after_release-IsAccounted now task state public_error false db released kept = kept refl

released-IsAccounted :
    (now : ℕ) (i o : ℕ) (p : RequestTask → Bool) (f : RequestTask → RequestTask) (db : Db)
    → Releases i p f
    → IsOwner o i db.tasks
    → IsAccounted db
    → (count_where p db.tasks == 1) ≡ true
    → IsAccounted (release_slot now o (record db { tasks = update_where p f db.tasks }))
unfolding release_slot
released-IsAccounted now i o p f db r own s met =
    release-SlotsAccounted now i o db r own (ground arith) s

unreleased-IsAccounted :
    (i : ℕ) (p : RequestTask → Bool) (f : RequestTask → RequestTask) (db : Db)
    → Releases i p f
    → IsAccounted db
    → (count_where p db.tasks == 1) ≡ false
    → IsAccounted (record db { tasks = update_where p f db.tasks })
unreleased-IsAccounted i p f db r s other =
    rw (unmet i p f db.tasks r.targets (s.unique_tasks i) other) s

pub finalize_terminal :
    (now : ℕ) (task : RequestTask) (state : TaskState) (sources : Option (List TaskState))
    (public_error : Option String) (db : Db)
    → is_terminal state ≡ true
    → finalize now task state sources public_error db
      ≡ ok (
          after_release now task state public_error (
            Tasks.execute
              (Tasks.release_condition task.id sources)
              (Tasks.terminal_values state now)
              db))
unfolding finalize Tasks.release_slot_to_terminal
finalize_terminal now task state sources public_error db h = rw h

pub finalize_refused :
    (now : ℕ) (task : RequestTask) (state : TaskState) (sources : Option (List TaskState))
    (public_error : Option String) (db : Db)
    → is_terminal state ≡ false
    → finalize now task state sources public_error db ≡ err value_error
unfolding finalize Tasks.release_slot_to_terminal
finalize_refused now task state sources public_error db h = rw h

-- Whatever `finalize` returns, the accounts stand; the loaded row names its owner.
pub finalize-IsAccounted :
    (now : ℕ) (task : RequestTask) (state : TaskState) (sources : Option (List TaskState))
    (public_error : Option String) (db : Db) {r : Bool × Db}
    → IsOwner task.owner_user_id task.id db.tasks
    → IsAccounted db
    → finalize now task state sources public_error db ≡ ok r
    → IsAccounted r.1
finalize-IsAccounted now task state sources public_error db own s h =
    elim (Bool-cases (is_terminal state)) [
      | inl end ↦
          let r = terminal-Releases task.id sources state now end in
          subst (λ x. IsAccounted x.1)
            (ok-injective (sym (finalize_terminal now task state sources public_error db end) ∙ h))
            (after_release-IsAccounted now task state public_error _ _
              (released-IsAccounted now task.id task.owner_user_id _ _ db r own s)
              (unreleased-IsAccounted task.id _ _ db r s))
      | inr other ↦ cc (h, finalize_refused now task state sources public_error db other)
    ]

-- The owner that the loaded row names is the owner of every row with its key.
pub get-IsOwner :
    (i : ℕ) (ts : List RequestTask) (t : RequestTask)
    → count_where (has_id i) ts ≤ 1
    → find_where (has_id i) ts ≡ some t
    → IsOwner t.owner_user_id i ts
get-IsOwner i [] t unique h = refl
get-IsOwner i (x ∷ xs) t unique h = ground (
  arith,
  get-IsOwner i xs t,
  count_mono (owned_elsewhere i t.owner_user_id) (has_id i) xs (λ y. ground arith),
)

release_of-IsAccounted :
    (now i : ℕ) (found : Option RequestTask) (db : Db)
    → count_where (has_id i) db.tasks ≡ 1
    → find_where (has_id i) db.tasks ≡ found
    → ((o : ℕ) → IsOwner o i db.tasks → IsAccounted (release_slot now o db))
    → IsAccounted (release_of now found db)
unfolding release_of add_event
release_of-IsAccounted now i none db one e released =
    absurd (omega (arith, find-none (has_id i) db.tasks e))
release_of-IsAccounted now i (some t) db one e released =
    released t.owner_user_id (get-IsOwner i db.tasks t (omega arith) e)

-- A cancellation releases the slot of the owner that it reads after its UPDATE.
pub cancel-IsAccounted :
    (now i : ℕ) (reason : String) (db : Db)
    → IsAccounted db
    → IsAccounted (cancel_caller_disconnected now i reason db).1
unfolding cancel_caller_disconnected Tasks.cancel_caller_disconnected Tasks.get
cancel-IsAccounted now i reason db s =
    let r = cancel-Releases i reason now in
    let p = Tasks.cancel_condition i in
    let f = Tasks.cancel_values reason now in
    let same_ids = count-update_same p (has_id i) f (λ t. ground (arith, r.keeps_id t)) db.tasks in
    elim (Bool-cases (count_where p db.tasks == 1)) [
      | inl met ↦ rw met (
          release_of-IsAccounted now i _ (record db { tasks = update_where p f db.tasks })
            (omega (
              arith,
              same_ids,
              s.unique_tasks i,
              count_mono p (has_id i) db.tasks (λ t. ground arith),
              (==_iff (count_where p db.tasks) 1).0 met,
            ))
            refl
            (λ o own.
              released-IsAccounted now i o p f db r
                (sym (
                    count-update_same p (owned_elsewhere i o) f
                      (λ t. ground (arith, r.keeps_id t, r.keeps_owner t)) db.tasks)
                  ∙ own)
                s met))
      | inr other ↦ rw other (unreleased-IsAccounted i p f db r s other)
    ]

pub first_reply-IsAccounted :
    (now i o v : ℕ) (payload : String) (db : Db)
    → IsAccounted db
    → IsAccounted (Tasks.first_reply_wins now i o v payload db).1
unfolding Tasks.first_reply_wins
first_reply-IsAccounted now i o v payload db =
    update-keeps-SlotsAccounted db (reply-KeepsSlots waiting_human i o v payload now refl)

pub accept_forward-IsAccounted :
    (now i o v : ℕ) (payload : String) (db : Db)
    → IsAccounted db
    → IsAccounted (Tasks.accept_forward_reply now i o v payload db).1
unfolding Tasks.accept_forward_reply
accept_forward-IsAccounted now i o v payload db =
    update-keeps-SlotsAccounted db (reply-KeepsSlots forwarding_llm i o v payload now refl)

pub claim-IsAccounted :
    (now i : ℕ) (db : Db) → IsAccounted db → IsAccounted (Tasks.claim_fallback now i db).1
unfolding Tasks.claim_fallback
claim-IsAccounted now i db = update-keeps-SlotsAccounted db (claim-KeepsSlots i now)

pub mark_responding-IsAccounted :
    (now : ℕ) (task : RequestTask) (db : Db)
    → IsAccounted db
    → IsAccounted (mark_responding now task db).1
unfolding mark_responding Tasks.start_response add_event
mark_responding-IsAccounted now task db s =
    let kept = update-keeps-SlotsAccounted db (start-KeepsSlots task.id now) s in
    elim (Bool-cases (count_where (Tasks.start_condition task.id) db.tasks == 1)) [
      | inl e ↦ rw e kept
      | inr e ↦ rw e kept
    ]
