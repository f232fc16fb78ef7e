-- ===== src/Context/Ancestors.antt =====
-- `_resolve_previous`: whose response a request may continue, and how long the chain may be.
use mathlib.Core.Path.{subst}
use text.Mathlib.TextEquality.{eq_iff}
use human_llm_gateway.Prelude.{
  ℕ, zero, suc, ◌≡◌, ◌↔◌, refl, ap, String, true, ◌&&◌, Option, none, some, inl, inr, Bool-cases,
  arith, ◌==◌,
}
use human_llm_gateway.Domain.Enums.{TaskState, same_state, same_state_sound}
use human_llm_gateway.Model.Task.{RequestTask}
use human_llm_gateway.Model.Account.{ApiKey}
use human_llm_gateway.Model.Db.{Db}
use human_llm_gateway.Result.{ok, >>=-eq-ok, ok-injective}
use human_llm_gateway.Table.Rows.{find_where}
use human_llm_gateway.Table.Counts.{find-meets}
use human_llm_gateway.Repositories.Tasks
use human_llm_gateway.Services.Inference.History.{
  is_response, ancestor, check_chain, usable, resolve_previous, max_context_chain_depth,
  invalid_previous,
}

-- The ancestors from a reference upwards are all stored, and at most so many.
pub data HasAncestors (db : Db) : ℕ → Option ℕ → Type 0 where
  root : {n : ℕ} → HasAncestors db n none
  parent :
      {n i : ℕ} (t : RequestTask)
      → Tasks.get db i ≡ some t
      → HasAncestors db n t.previous_task_id
      → HasAncestors db (suc n) (some i)

ancestor-ok : (o : Option RequestTask) {t : RequestTask} → ancestor o ≡ ok t → o ≡ some t
unfolding ancestor invalid_previous
ancestor-ok none h = cc h
ancestor-ok (some t) h = ap some (ok-injective h)

check_chain_sound :
    (n : ℕ) (db : Db) (o : Option ℕ) → check_chain n db o ≡ ok tt → HasAncestors db n o
unfolding check_chain
check_chain_sound n db none h = root
check_chain_sound zero db (some i) h = cc h
check_chain_sound (suc n) db (some i) h =
    let (t, found, h1) = >>=-eq-ok (ancestor (Tasks.get db i)) _ h in
    parent t (ancestor-ok (Tasks.get db i) found) (check_chain_sound n db t.previous_task_id h1)

check_chain_complete :
    {db : Db} {n : ℕ} {o : Option ℕ} → HasAncestors db n o → check_chain n db o ≡ ok tt
unfolding check_chain ancestor
check_chain_complete root = refl
check_chain_complete (parent t found rest) = rw found (check_chain_complete rest)

-- The loop over the ancestors of a task succeeds exactly where they are all stored and no more
-- than the budget allows.
pub check_chain_iff :
    (n : ℕ) (db : Db) (o : Option ℕ) → (check_chain n db o ≡ ok tt) ↔ HasAncestors db n o
check_chain_iff n db o = (check_chain_sound n db o, check_chain_complete)

-- A task that a request with this key may continue, by the name of its response.
pub record IsUsable (db : Db) (response_id : String) (key : ApiKey) (t : RequestTask) : Type 0 where
  pub response : t.response_public_id ≡ some response_id
  pub same_key : t.api_key_id ≡ key.id
  pub is_completed : t.state ≡ TaskState.completed
  pub ancestors : HasAncestors db max_context_chain_depth t.previous_task_id

usable-ok :
    (key : ApiKey) (o : Option RequestTask) {t : RequestTask}
    → usable key o ≡ ok t
    → (o ≡ some t) × ((t.api_key_id == key.id && same_state t.state TaskState.completed) ≡ true)
unfolding usable invalid_previous
usable-ok key none h = cc h
usable-ok key (some u) {t} h =
    elim (Bool-cases (u.api_key_id == key.id && same_state u.state TaskState.completed)) [
      | inl e ↦
          let same : u ≡ t = ok-injective (rw e at h) in
          (
            ap some same,
            subst (λ x. (x.api_key_id == key.id && same_state x.state TaskState.completed) ≡ true)
                same e,
          )
      | inr e ↦ cc (rw e at h)
    ]

is_response-eq :
    (wanted : String) (o : Option String) → is_response wanted o ≡ true → o ≡ some wanted
is_response-eq wanted none h = cc h
is_response-eq wanted (some id) h = ap some ((eq_iff id wanted).0 h)

-- A reference to an earlier response that is accepted names a completed task of the same API
-- key, whose ancestors are all stored and twenty at most.
pub resolve_previous-IsUsable :
    (db : Db) (response_id : String) (key : ApiKey) {t : RequestTask}
    → resolve_previous db response_id key ≡ ok t
    → IsUsable db response_id key t
unfolding resolve_previous
resolve_previous-IsUsable db response_id key {t} h =
    let p = λ (x : RequestTask). is_response response_id x.response_public_id in
    let (u, used, h1) = >>=-eq-ok (usable key (find_where p db.tasks)) _ h in
    let (_, chained, h2) =
      >>=-eq-ok (check_chain max_context_chain_depth db u.previous_task_id) _ h1 in
    let (found, met) = usable-ok key (find_where p db.tasks) used in
    subst (IsUsable db response_id key) (ok-injective h2) (record {
      response = is_response-eq response_id u.response_public_id (find-meets p db.tasks u found);
      same_key = ground arith;
      is_completed = same_state_sound u.state TaskState.completed (ground arith);
      ancestors = check_chain_sound max_context_chain_depth db u.previous_task_id chained;
    })
