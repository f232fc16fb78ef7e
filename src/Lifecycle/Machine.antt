-- ===== src/Lifecycle/Machine.antt =====
-- The state machine of app/domain/tasks.py over all transactions, and what is final in it.
use human_llm_gateway.Prelude.{
  ℕ, ◌≡◌, refl, ◌∙◌, String, Bool, true, false, Option, none, some, List, [], ◌∷◌, inl, inr, arith,
  ◌⊎◌, ◌==◌, ==_iff, Bool-cases, All,
}
use human_llm_gateway.Domain.Enums.{TaskState, waiting_human, forwarding_llm, same_state_sound}
use human_llm_gateway.Domain.States.{is_terminal, can_transition}
use human_llm_gateway.Model.Task.{RequestTask}
use human_llm_gateway.Model.Account.{User}
use human_llm_gateway.Model.Db.{Db}
use human_llm_gateway.Result.{ok, ok-injective}
use mathlib.Core.Path.{subst}
use human_llm_gateway.Table.Rows.{count_where}
use human_llm_gateway.Table.Counts.{count-pos_of_find}
use human_llm_gateway.Repositories.Tasks
use human_llm_gateway.Repositories.Users
use human_llm_gateway.Repositories.Accounts.{revoke_all_for_user, disable_all_for_user}
use human_llm_gateway.Services.Inference
use human_llm_gateway.Services.Delivery.{add_event}
use human_llm_gateway.Services.Sweeper.{is_overdue, sweep_target}
use human_llm_gateway.Services.Governance.{revoke_everything, enable_user, audit}
use human_llm_gateway.Api.TaskEnds
use human_llm_gateway.Api.TaskEnds.{finalize_loaded, mark_loaded, finalize_sources}
use human_llm_gateway.Slots.Invariant.{has_id, IsSettled, IsAccounted}
use human_llm_gateway.Slots.Creation.{create_task-Created}
use human_llm_gateway.Slots.Admission.{acquire_slot-Acquired}
use human_llm_gateway.Slots.Disabling.{disable_user_cases}
use human_llm_gateway.Lifecycle.Steps.{
  HandlerEnd, Step, create, reply, claim_forward, accept_forward, start_output, finish,
  fail_forward, cancel, sweep, disable, enable, Reach, here, next,
}
use human_llm_gateway.Lifecycle.Accounts.{Reach-IsAccounted}
use human_llm_gateway.Lifecycle.Moves.{
  Moves, Moves-refl, Moves-first_reply, Moves-accept_forward, Moves-claim, Moves-start,
  Moves-cancel, Follows, may_follow, awaits_reply,
}
use human_llm_gateway.Lifecycle.Conformance.{
  MovesAt, MovesAt-refl, MovesAt-update, finalize-MovesAt, cancel-MovesAt,
}

-- A new row in front has another key than the rows that are there.
MovesAt-cons :
    (i : ℕ) (task : RequestTask) (xs : List RequestTask)
    → count_where (has_id task.id) xs ≡ 0
    → MovesAt i xs (task ∷ xs)
MovesAt-cons i task xs unused = record {
  at = λ t e. elim (Bool-cases (task.id == i)) [
    | inl same ↦ absurd (
        omega
          (arith, rw ((==_iff task.id i).0 same) at unused, count-pos_of_find (has_id i) xs t e))
    | inr other ↦ (t, (rw other e), Moves-refl t)
  ];
}

handler-Follows : {state : TaskState} → HandlerEnd state → Follows (finalize_sources state) state
unfolding can_transition
handler-Follows HandlerEnd.timed_out s live allowed = ground arith
handler-Follows HandlerEnd.failed s live allowed = ground arith
handler-Follows HandlerEnd.completed s live allowed = ground arith

forward-Follows : Follows (some (forwarding_llm ∷ [])) TaskState.failed
unfolding can_transition
forward-Follows s live allowed = ground arith

overdue_states :
    (now : ℕ) (t : RequestTask)
    → is_overdue now t ≡ true
    → (t.state ≡ waiting_human) ⊎ (t.state ≡ forwarding_llm)
overdue_states now t due = ground arith

swept :
    (t : RequestTask)
    → (t.state ≡ waiting_human) ⊎ (t.state ≡ forwarding_llm)
    → may_follow t.state (sweep_target t) ≡ true
unfolding can_transition
swept t h = ground arith

sweep-Follows :
    (now : ℕ) (t : RequestTask)
    → is_overdue now t ≡ true
    → Follows (some (t.state ∷ [])) (sweep_target t)
sweep-Follows now t due s live allowed =
    let same : s ≡ t.state = same_state_sound s t.state (ground arith) in
    rw same (swept t (overdue_states now t due))

loaded-MovesAt :
    (i now : ℕ) (found : Option RequestTask) (state : TaskState) (sources : Option (List TaskState))
    (public_error : Option String) (db : Db) {r : Bool × Db}
    → Follows sources state
    → All IsSettled db.tasks
    → finalize_loaded now found state sources public_error db ≡ ok r
    → MovesAt i db.tasks r.1.tasks
unfolding finalize_loaded
loaded-MovesAt i now none state sources pe db follows settled h =
    subst (λ x. MovesAt i db.tasks x.1.tasks) (ok-injective h) (MovesAt-refl i db.tasks)
loaded-MovesAt i now (some t) state sources pe db follows settled h =
    finalize-MovesAt i now t state sources pe db follows settled h

marked-MovesAt :
    (i now : ℕ) (found : Option RequestTask) (db : Db)
    → All IsSettled db.tasks
    → MovesAt i db.tasks (mark_loaded now found db).1.tasks
unfolding mark_loaded Inference.mark_responding Tasks.start_response add_event
marked-MovesAt i now none db settled = MovesAt-refl i db.tasks
marked-MovesAt i now (some t) db settled =
    let moved =
      MovesAt-update i (Tasks.start_condition t.id) (Tasks.start_values now) db.tasks (λ x. refl)
        (λ x _. Moves-start now t.id x) settled in
    elim (Bool-cases (count_where (Tasks.start_condition t.id) db.tasks == 1)) [
      | inl e ↦ rw e moved
      | inr e ↦ rw e moved
    ]

revoked-MovesAt :
    (i now u actor : ℕ) (db : Db)
    → All IsSettled db.tasks
    → MovesAt i db.tasks (revoke_everything now u actor db).tasks
unfolding revoke_everything Users.set_active revoke_all_for_user disable_all_for_user
    Tasks.cancel_all_for_user Users.clear_active_task_count audit
revoked-MovesAt i now u actor db settled =
    MovesAt-update i (Tasks.active_for_user u) (Tasks.cancel_values "user_disabled" now) db.tasks
      (λ t. refl) (λ t _ met. Moves-cancel now "user_disabled" t (ground arith)) settled

enabled-tasks :
    (now : ℕ) (u : User) (actor : ℕ) (db : Db) → (enable_user now u actor db).tasks ≡ db.tasks
unfolding enable_user Users.set_active audit
enabled-tasks now u actor db = ground arith

Step-MovesAt : {a b : Db} (i : ℕ) → Step a b → IsAccounted a → MovesAt i a.tasks b.tasks
unfolding TaskEnds.finalize TaskEnds.fail_forward TaskEnds.mark_responding Tasks.first_reply_wins
    Tasks.accept_forward_reply Tasks.claim_fallback
Step-MovesAt {a} i (create env now fresh key o protocol parsed resolved normalize task unused h) s =
    let c = create_task-Created env now fresh key o protocol parsed resolved normalize a h in
    let acquired = acquire_slot-Acquired now key o a c.took_slot in
    rw (c.rows, acquired.tasks) (MovesAt-cons i task a.tasks (rw c.key_of unused))
Step-MovesAt {a} i (reply now j o v payload e) s = rw e (
    MovesAt-update i (Tasks.reply_condition waiting_human j o v) (Tasks.reply_values payload now)
      a.tasks (λ t. refl) (λ t _. Moves-first_reply now j o v payload t) s.settled)
Step-MovesAt {a} i (claim_forward now j e) s = rw e (
    MovesAt-update i (Tasks.claim_condition j) (Tasks.claim_values now) a.tasks (λ t. refl)
      (λ t _. Moves-claim now j t) s.settled)
Step-MovesAt {a} i (accept_forward now j o v payload e) s = rw e (
    MovesAt-update i (Tasks.reply_condition forwarding_llm j o v) (Tasks.reply_values payload now)
      a.tasks (λ t. refl) (λ t _. Moves-accept_forward now j o v payload t) s.settled)
Step-MovesAt {a} i (start_output now j e) s =
    rw e (marked-MovesAt i now (Tasks.get a j) a s.settled)
Step-MovesAt {a} i (finish now j state pe done end h) s =
    loaded-MovesAt i now _ state (finalize_sources state) pe a (handler-Follows end) s.settled h
Step-MovesAt {a} i (fail_forward now j pe done h) s =
    loaded-MovesAt i now _ TaskState.failed _ pe a forward-Follows s.settled h
Step-MovesAt {a} i (cancel now j reason e) s = rw e (cancel-MovesAt i now j reason a s.settled)
Step-MovesAt {a} i (sweep now task done due own h) s =
    finalize-MovesAt i now task (sweep_target task) (some (task.state ∷ [])) none a
      (sweep-Follows now task due) s.settled h
Step-MovesAt {a} i (disable now u actor impact h) s = elim (disable_user_cases now u actor a h) [
  | inl same ↦ rw same (MovesAt-refl i a.tasks)
  | inr ran ↦ rw ran (revoked-MovesAt i now u.id actor a s.settled)
]
Step-MovesAt {a} i (enable now u actor e) s =
    rw (e, enabled-tasks now u actor a) (MovesAt-refl i a.tasks)

-- What is decided about a task: an end state, or a stored reply, never changes again.
pub record IsFinal (t t' : RequestTask) : Type 0 where
  pub same_end :
      is_terminal t.state ≡ true → (t'.state ≡ t.state) × (t'.slot_released_at ≡ t.slot_released_at)
  pub no_return : awaits_reply t.state ≡ false → awaits_reply t'.state ≡ false
  pub same_reply : awaits_reply t.state ≡ false → t'.response_payload_json ≡ t.response_payload_json

Moves-IsFinal : (t t' : RequestTask) → Moves t t' → IsFinal t t'
unfolding can_transition
Moves-IsFinal t t' m = record {
  same_end = λ e. (ground arith, m.frozen e);
  no_return = λ e. ground arith;
  same_reply = m.kept_reply;
}

IsFinal-trans : (t u v : RequestTask) → IsFinal t u → IsFinal u v → IsFinal t v
IsFinal-trans t u v f g = record {
  same_end = λ e.
      let (state, slot) = f.same_end e in
      let (later, still) = g.same_end (rw state e) in (later ∙ state, still ∙ slot);
  no_return = λ e. g.no_return (f.no_return e);
  same_reply = λ e. g.same_reply (f.no_return e) ∙ f.same_reply e;
}

-- A task of an accounted database is there in every later one; an end state and the time of its
-- release stay as they are, and a task that no longer waits for a reply never waits again and
-- keeps its reply.
pub reached-IsFinal :
    {a b : Db} (i : ℕ) (t : RequestTask)
    → IsAccounted a
    → Reach a b
    → Tasks.get a i ≡ some t
    → (t' : RequestTask) × (Tasks.get b i ≡ some t') × IsFinal t t'
unfolding Tasks.get
reached-IsFinal i t s here e = (t, e, Moves-IsFinal t t (Moves-refl t))
reached-IsFinal {a} i t s (next r st) e =
    let (u, found, f) = reached-IsFinal i t s r e in
    let (v, later, m) = (Step-MovesAt i st (Reach-IsAccounted r s)).at u found in
    (v, later, IsFinal-trans t u v f (Moves-IsFinal u v m))

-- In one transaction on an accounted database a task keeps its key and owner, its version does
-- not fall, and its state stays or follows by the state machine, to which the step from
-- response_ready to completed is added.
pub step_conforms :
    {a b : Db} (i : ℕ) (t : RequestTask)
    → IsAccounted a
    → Step a b
    → Tasks.get a i ≡ some t
    → (t' : RequestTask) × (Tasks.get b i ≡ some t') × Moves t t'
unfolding Tasks.get
step_conforms i t s st e = (Step-MovesAt i st s).at t e
