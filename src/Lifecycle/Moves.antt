-- ===== src/Lifecycle/Moves.antt =====
-- How one row changes in a transaction, and under the UPDATE statements of
-- app/repositories/tasks.py.
use human_llm_gateway.Prelude.{
  ℕ, ◌≤◌, ◌≡◌, refl, String, Bool, true, false, ◌&&◌, ◌||◌, Option, List, ◌⊎◌, inl, inr, arith,
  Bool-cases,
}
use human_llm_gateway.Domain.Enums.{
  TaskState, received, waiting_human, forwarding_llm, response_ready, same_state,
}
use human_llm_gateway.Domain.States.{is_terminal, can_transition}
use human_llm_gateway.Model.Task.{RequestTask}
use human_llm_gateway.Table.Rows.{update_row}
use human_llm_gateway.Repositories.Tasks
use human_llm_gateway.Slots.Invariant.{IsSettled}

-- A step of the state machine, or the completion of an answer whose output was not begun, which
-- `_finalize` admits and app/domain/tasks.py does not list.
abbrev pub may_follow : TaskState → TaskState → Bool
may_follow a b =
    can_transition a b || (same_state a response_ready && same_state b TaskState.completed)

-- The states from which a reply may still be stored.
abbrev pub awaits_reply : TaskState → Bool
awaits_reply received = true
awaits_reply waiting_human = true
awaits_reply forwarding_llm = true
awaits_reply _ = false

pub record Moves (t t' : RequestTask) : Type 0 where
  pub same_id : t'.id ≡ t.id
  pub same_owner : t'.owner_user_id ≡ t.owner_user_id
  pub moved : (t'.state ≡ t.state) ⊎ (may_follow t.state t'.state ≡ true)
  pub frozen : is_terminal t.state ≡ true → t'.slot_released_at ≡ t.slot_released_at
  pub kept_reply : awaits_reply t.state ≡ false → t'.response_payload_json ≡ t.response_payload_json
  pub versions : t.version ≤ t'.version

pub Moves-refl : (t : RequestTask) → Moves t t
Moves-refl t = record {
  same_id = refl;
  same_owner = refl;
  moved = inl refl;
  frozen = λ _. refl;
  kept_reply = λ _. refl;
  versions = omega arith;
}

-- An UPDATE moves a row if its new values do so for the rows that meet its condition.
pub Moves-update :
    (p : RequestTask → Bool) (f : RequestTask → RequestTask) (t : RequestTask)
    → (p t ≡ true → Moves t (f t))
    → Moves t (update_row p f t)
Moves-update p f t h = elim (Bool-cases (p t)) [ inl e ↦ rw e (h e) | inr e ↦ rw e (Moves-refl t) ]

pub Moves-first_reply :
    (now i o v : ℕ) (payload : String) (t : RequestTask)
    → Tasks.reply_condition waiting_human i o v t ≡ true
    → Moves t (Tasks.reply_values payload now t)
unfolding can_transition
Moves-first_reply now i o v payload t h = record {
  same_id = refl;
  same_owner = refl;
  moved = ground arith;
  frozen = λ _. refl;
  kept_reply = λ k. ground arith;
  versions = omega arith;
}

pub Moves-accept_forward :
    (now i o v : ℕ) (payload : String) (t : RequestTask)
    → Tasks.reply_condition forwarding_llm i o v t ≡ true
    → Moves t (Tasks.reply_values payload now t)
unfolding can_transition
Moves-accept_forward now i o v payload t h = record {
  same_id = refl;
  same_owner = refl;
  moved = ground arith;
  frozen = λ _. refl;
  kept_reply = λ k. ground arith;
  versions = omega arith;
}

pub Moves-claim :
    (now i : ℕ) (t : RequestTask)
    → Tasks.claim_condition i t ≡ true
    → Moves t (Tasks.claim_values now t)
unfolding can_transition
Moves-claim now i t h = record {
  same_id = refl;
  same_owner = refl;
  moved = ground arith;
  frozen = λ _. refl;
  kept_reply = λ _. refl;
  versions = omega arith;
}

pub Moves-start :
    (now i : ℕ) (t : RequestTask)
    → Tasks.start_condition i t ≡ true
    → Moves t (Tasks.start_values now t)
unfolding can_transition
Moves-start now i t h = record {
  same_id = refl;
  same_owner = refl;
  moved = ground arith;
  frozen = λ _. refl;
  kept_reply = λ _. refl;
  versions = omega arith;
}

-- The end state may follow every state that the condition admits.
abbrev pub Follows : Option (List TaskState) → TaskState → Type 0
Follows sources target =
    (s : TaskState)
    → is_terminal s ≡ false
    → Tasks.source_allowed sources s ≡ true
    → may_follow s target ≡ true

pub Moves-terminal :
    (now i : ℕ) (sources : Option (List TaskState)) (target : TaskState) (t : RequestTask)
    → Follows sources target
    → IsSettled t
    → Tasks.release_condition i sources t ≡ true
    → Moves t (Tasks.terminal_values target now t)
Moves-terminal now i sources target t follows settled h = record {
  same_id = refl;
  same_owner = refl;
  moved = inr (follows t.state (ground arith) (ground arith));
  frozen = λ ended. ground arith;
  kept_reply = λ _. refl;
  versions = omega arith;
}

pub Moves-cancel :
    (now : ℕ) (reason : String) (t : RequestTask)
    → is_terminal t.state ≡ false
    → Moves t (Tasks.cancel_values reason now t)
unfolding can_transition
Moves-cancel now reason t h = record {
  same_id = refl;
  same_owner = refl;
  moved = ground arith;
  frozen = λ ended. ground arith;
  kept_reply = λ _. refl;
  versions = omega arith;
}
