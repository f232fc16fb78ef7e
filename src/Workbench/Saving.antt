-- ===== src/Workbench/Saving.antt =====
-- `save_draft` of app/services/task_service.py: the draft that it stores.
use mathlib.Core.Path.{subst}
use human_llm_gateway.Prelude.{
  ℕ, stripped_option, ◌≤◌, ◌≡◌, refl, sym, ap, ◌∙◌, Bool, true, Option, none, some, List, [], ◌∷◌,
  inl, inr, arith, Bool-cases, ==_iff, ◌==◌, bit, All,
}
use human_llm_gateway.Domain.Enums.{DraftSource}
use human_llm_gateway.Model.Task.{RequestTask, TaskDraft}
use human_llm_gateway.Model.Account.{User}
use human_llm_gateway.Model.Db.{Db}
use human_llm_gateway.Result.{ok}
use human_llm_gateway.Table.Rows.{count_where, update_where, select_where}
use human_llm_gateway.Repositories.Drafts.{
  DraftPayload, is_active_draft, draft_values, is_newer, newer_of, newest, get_active_draft,
  update_active_draft_fields, create_draft,
}
use human_llm_gateway.Services.Workbench.{
  ReplyDraft, Libraries, draft_payload, store_draft, save_draft,
}
use human_llm_gateway.Workbench.Drafts.{
  OneActive, IsNew, IsUpdated, stored-IsNew, stored-IsUpdated, save_draft-stored, updated-count,
}

-- The row is the task's editing draft, with these texts.
pub record HoldsDraft (task_id : ℕ) (payload : DraftPayload) (d : TaskDraft) : Type 0 where
  pub active : is_active_draft task_id d ≡ true
  pub reasoning : d.reasoning_text ≡ payload.reasoning
  pub tool_calls : d.tool_calls_json ≡ payload.tool_calls_json
  pub final : d.final_text ≡ payload.final_text

some-injective : {d e : TaskDraft} → some d ≡ some e → d ≡ e
some-injective h = cc

newer_of-holds {κ} :
    (P : TaskDraft → Type κ) (x : TaskDraft) (o : Option TaskDraft)
    → P x
    → ((y : TaskDraft) → o ≡ some y → P y)
    → P (newer_of x o)
newer_of-holds P x none h k = h
newer_of-holds P x (some y) h k = elim (Bool-cases (is_newer y x)) [
  | inl e ↦ rw e (k y refl)
  | inr e ↦ rw e h
]

newest-All {κ} :
    (P : TaskDraft → Type κ) (ds : List TaskDraft) (d : TaskDraft)
    → All P ds
    → newest ds ≡ some d
    → P d
unfolding newest
newest-All P [] d h e = cc e
newest-All P (x ∷ xs) d h e =
    subst P (some-injective e)
      (newer_of-holds P x (newest xs) h.0 (λ y found. newest-All P xs y h.1 found))

selected-HoldsDraft :
    (now i : ℕ) (payload : DraftPayload) (ds : List TaskDraft)
    → All (HoldsDraft i payload) (
        select_where
          (is_active_draft i)
          (update_where (is_active_draft i) (draft_values payload now) ds))
selected-HoldsDraft now i payload [] = tt
selected-HoldsDraft now i payload (d ∷ ds) = elim (Bool-cases (is_active_draft i d)) [
  | inl met ↦
      rw (met, met)
        (
          record { active = met; reasoning = refl; tool_calls = refl; final = refl },
          selected-HoldsDraft now i payload ds,
        )
  | inr other ↦ rw (other, other) (selected-HoldsDraft now i payload ds)
]

select-none :
    (p : TaskDraft → Bool) (ds : List TaskDraft) → count_where p ds ≡ 0 → select_where p ds ≡ []
select-none p [] h = refl
select-none p (d ∷ ds) h = ground (arith, select-none p ds)

-- What a saved draft is.
pub record IsSaved (task_id : ℕ) (payload : DraftPayload) (row : TaskDraft) (b : Db) : Type 0 where
  pub found : get_active_draft b task_id ≡ some row
  pub holds : HoldsDraft task_id payload row
  pub one_active : OneActive b

created-HoldsDraft :
    (now draft_id i owner_id : ℕ) (payload : DraftPayload)
    → HoldsDraft i payload (create_draft now draft_id i owner_id DraftSource.manual payload)
unfolding create_draft
created-HoldsDraft now draft_id i owner_id payload = record {
  active = ground arith;
  reasoning = refl;
  tool_calls = refl;
  final = refl;
}

bit_le : (b : Bool) → bit b ≤ 1
bit_le b = ground arith

active-only :
    (i j : ℕ) (d : TaskDraft) (ds : List TaskDraft)
    → is_active_draft i d ≡ true
    → count_where (is_active_draft i) ds ≡ 0
    → count_where (is_active_draft j) ds ≤ 1
    → count_where (is_active_draft j) (d ∷ ds) ≤ 1
active-only i j d ds active zero one = elim (Bool-cases (i == j)) [
  | inl e ↦
      subst (λ k. count_where (is_active_draft k) (d ∷ ds) ≤ 1) ((==_iff i j).0 e)
        (omega (arith, zero, bit_le (is_active_draft i d)))
  | inr e ↦ ground arith
]

new-IsSaved :
    (now draft_id : ℕ) (task : RequestTask) (owner : User) (payload : DraftPayload) (a : Db)
    (row : TaskDraft) (b : Db)
    → OneActive a
    → IsNew now draft_id task owner payload a row b
    → IsSaved task.id payload row b
unfolding get_active_draft newest
new-IsSaved now draft_id task owner payload a row b one n =
    let holds : HoldsDraft task.id payload row =
      rw n.row_eq (created-HoldsDraft now draft_id task.id owner.id payload) in
    record {
      found =
          rw n.rows
            (rw holds.active (rw (select-none (is_active_draft task.id) a.drafts n.zero) refl));
      holds = holds;
      one_active = λ i. rw n.rows (active-only task.id i row a.drafts holds.active n.zero (one i));
    }

updated-IsSaved :
    (now i : ℕ) (payload : DraftPayload) (a : Db) (row : TaskDraft) (b : Db)
    → OneActive a
    → IsUpdated now i payload a row b
    → IsSaved i payload row b
unfolding get_active_draft
updated-IsSaved now i payload a row b one u = record {
  found = u.active;
  holds =
      newest-All (HoldsDraft i payload) _ row (selected-HoldsDraft now i payload a.drafts)
        (ap (λ ds. newest (select_where (is_active_draft i) ds)) (sym u.rows) ∙ u.active);
  one_active = λ j. omega (
    arith,
    ap (count_where (is_active_draft j)) u.rows,
    updated-count now i j payload a.drafts,
    one j,
  );
}

IsSaved-same :
    (i : ℕ) (payload : DraftPayload) (row row' : TaskDraft) (a b : Db)
    → row ≡ row'
    → a.drafts ≡ b.drafts
    → IsSaved i payload row a
    → IsSaved i payload row' b
unfolding get_active_draft
IsSaved-same i payload row row' a b same rows s = record {
  found =
      ap (λ ds. newest (select_where (is_active_draft i) ds)) (sym rows) ∙ (s.found ∙ ap some same);
  holds = subst (HoldsDraft i payload) same s.holds;
  one_active = λ j. rw (sym rows) (s.one_active j);
}

stored-IsSaved :
    (now draft_id : ℕ) (task : RequestTask) (owner : User) (payload : DraftPayload) (a : Db)
    {s : TaskDraft × Db}
    → OneActive a
    → store_draft now draft_id task owner payload (update_active_draft_fields now task.id payload a)
      ≡ ok s
    → IsSaved task.id payload s.0 s.1
stored-IsSaved now draft_id task owner payload a {s} one h =
    elim (Bool-cases (count_where (is_active_draft task.id) a.drafts == 0)) [
      | inl none_active ↦ new-IsSaved now draft_id task owner payload a s.0 s.1 one (
          stored-IsNew now draft_id task owner payload a
            ((==_iff (count_where (is_active_draft task.id) a.drafts) 0).0 none_active) h)
      | inr some_active ↦
          updated-IsSaved now task.id payload a s.0 s.1 one
            (stored-IsUpdated now draft_id task owner payload a (ground (arith, one task.id)) h)
    ]

-- Where every task has one active draft at most, a saved draft is the task's active draft with
-- the stripped texts and the calls of the reply, and every task still has one at most.
pub save_draft-IsSaved :
    (l : Libraries) (now draft_id : ℕ) (task : RequestTask) (owner : User) (draft : ReplyDraft)
    (a : Db) {row : TaskDraft} {b : Db}
    → OneActive a
    → save_draft l now draft_id task owner draft a ≡ ok (row, b)
    → IsSaved task.id
        (record {
          reasoning = stripped_option draft.reasoning;
          tool_calls_json = l.dump_calls draft.tool_calls;
          final_text = stripped_option draft.final_text;
        })
        row
        b
unfolding draft_payload
save_draft-IsSaved l now draft_id task owner draft a {row} {b} one h =
    let (s, stored, same, rows) = save_draft-stored l now draft_id task owner draft a h in
    IsSaved-same task.id (draft_payload l draft) s.0 row s.1 b same rows
      (stored-IsSaved now draft_id task owner (draft_payload l draft) a one stored)
