-- ===== src/Lifecycle/Conformance.antt =====
-- The moves of the tasks under each transaction of the step relation.
use mathlib.Core.Option
use mathlib.Core.Path.{subst}
use human_llm_gateway.Prelude.{
  ℕ, ◌≡◌, refl, sym, ap, ◌∙◌, String, Bool, true, false, Option, none, some, List, inl, inr, arith,
  Bool-cases, All, ◌==◌,
}
use human_llm_gateway.Domain.Enums.{TaskState}
use human_llm_gateway.Domain.States.{is_terminal}
use human_llm_gateway.Model.Task.{RequestTask}
use human_llm_gateway.Model.Db.{Db}
use human_llm_gateway.Result.{ok, ok-injective}
use human_llm_gateway.Table.Rows.{update_row, update_where, find_where}
use human_llm_gateway.Table.Counts.{find-update, All-find}
use human_llm_gateway.Repositories.Tasks
use human_llm_gateway.Repositories.Users
use human_llm_gateway.Services.Inference
use human_llm_gateway.Services.Inference.{
  error_code_values, set_public_error, after_release, release_of, after_cancel, public_code_of,
}
use human_llm_gateway.Services.Admission.{release_slot}
use human_llm_gateway.Services.Delivery.{add_event}
use human_llm_gateway.Slots.Invariant.{has_id, IsSettled}
use human_llm_gateway.Slots.Transitions.{finalize_terminal, finalize_refused}
use human_llm_gateway.Lifecycle.Moves.{
  Moves, Moves-refl, Moves-update, Follows, Moves-terminal, Moves-cancel,
}

-- The task with the key `i` is still there, and moved as it may.
pub record MovesAt (i : ℕ) (xs ys : List RequestTask) : Type 0 where
  pub at :
      (t : RequestTask)
      → find_where (has_id i) xs ≡ some t
      → (t' : RequestTask) × (find_where (has_id i) ys ≡ some t') × Moves t t'

pub MovesAt-refl : (i : ℕ) (xs : List RequestTask) → MovesAt i xs xs
MovesAt-refl i xs = record { at = λ t e. (t, e, Moves-refl t) }

pub MovesAt-update :
    (i : ℕ) (p : RequestTask → Bool) (f : RequestTask → RequestTask) (ts : List RequestTask)
    → ((t : RequestTask) → (f t).id ≡ t.id)
    → ((t : RequestTask) → IsSettled t → p t ≡ true → Moves t (f t))
    → All IsSettled ts
    → MovesAt i ts (update_where p f ts)
MovesAt-update i p f ts keeps moves settled = record {
  at = λ t e. (
    update_row p f t,
    find-update (has_id i) p f ts (λ x. ground (arith, keeps x))
        ∙ ap (Option.map (update_row p f)) e,
    Moves-update p f t (moves t (All-find IsSettled (has_id i) ts t settled e)),
  );
}

coded :
    (now j : ℕ) (code : String) (t t' : RequestTask)
    → Moves t t'
    → Moves t (update_row (has_id j) (error_code_values now code) t')
coded now j code t t' m = elim (Bool-cases (t'.id == j)) [
  | inl e ↦ rw e (record {
    same_id = m.same_id;
    same_owner = m.same_owner;
    moved = m.moved;
    frozen = m.frozen;
    kept_reply = m.kept_reply;
    versions = m.versions;
  })
  | inr e ↦ rw e m
]

-- Writing the public error code moves nothing.
pub MovesAt-coded :
    (now i j : ℕ) (code : Option String) (xs : List RequestTask) (db : Db)
    → MovesAt i xs db.tasks
    → MovesAt i xs (set_public_error now j code db).tasks
unfolding set_public_error
MovesAt-coded now i j none xs db m = m
MovesAt-coded now i j (some code) xs db m = record {
  at = λ t e.
      let (t', found, moves) = m.at t e in
      (
        update_row (has_id j) (error_code_values now code) t',
        find-update (has_id i) (has_id j) (error_code_values now code) db.tasks (λ x. ground arith)
            ∙ ap (Option.map (update_row (has_id j) (error_code_values now code))) found,
        coded now j code t t' moves,
      );
}

after_release-MovesAt :
    (i now : ℕ) (task : RequestTask) (state : TaskState) (public_error : Option String)
    (xs : List RequestTask) (done : Bool) (db : Db)
    → MovesAt i xs db.tasks
    → MovesAt i xs (after_release now task state public_error (done, db)).1.tasks
unfolding after_release add_event release_slot Users.atomic_release_slot
after_release-MovesAt i now task state public_error xs true db m =
    MovesAt-coded now i task.id (public_code_of public_error state) xs
      (release_slot now task.owner_user_id db) m
after_release-MovesAt i now task state public_error xs false db m = m

pub finalize-MovesAt :
    (i now : ℕ) (task : RequestTask) (state : TaskState) (sources : Option (List TaskState))
    (public_error : Option String) (db : Db) {r : Bool × Db}
    → Follows sources state
    → All IsSettled db.tasks
    → Inference.finalize now task state sources public_error db ≡ ok r
    → MovesAt i db.tasks r.1.tasks
finalize-MovesAt i now task state sources public_error db follows settled h =
    elim (Bool-cases (is_terminal state)) [
      | inl end ↦
          subst (λ x. MovesAt i db.tasks x.1.tasks)
            (ok-injective (sym (finalize_terminal now task state sources public_error db end) ∙ h))
            (after_release-MovesAt i now task state public_error db.tasks _ _ (
              MovesAt-update i (Tasks.release_condition task.id sources)
                (Tasks.terminal_values state now) db.tasks (λ t. refl)
                (λ t. Moves-terminal now task.id sources state t follows) settled))
      | inr other ↦ cc (h, finalize_refused now task state sources public_error db other)
    ]

release_of-tasks :
    (now : ℕ) (found : Option RequestTask) (db : Db) → (release_of now found db).tasks ≡ db.tasks
unfolding release_of add_event release_slot Users.atomic_release_slot
release_of-tasks now none db = refl
release_of-tasks now (some t) db = refl

pub after_cancel-tasks :
    (now j : ℕ) (done : Bool) (db : Db) → (after_cancel now j (done, db)).1.tasks ≡ db.tasks
unfolding after_cancel
after_cancel-tasks now j true db = release_of-tasks now (Tasks.get db j) db
after_cancel-tasks now j false db = refl

pub cancel-MovesAt :
    (i now j : ℕ) (reason : String) (db : Db)
    → All IsSettled db.tasks
    → MovesAt i db.tasks (Inference.cancel_caller_disconnected now j reason db).1.tasks
unfolding Inference.cancel_caller_disconnected Tasks.cancel_caller_disconnected
cancel-MovesAt i now j reason db settled = rw after_cancel-tasks (
    MovesAt-update i (Tasks.cancel_condition j) (Tasks.cancel_values reason now) db.tasks
      (λ t. refl) (λ t _ met. Moves-cancel now reason t (ground arith)) settled)
