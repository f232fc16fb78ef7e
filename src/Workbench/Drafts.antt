-- ===== src/Workbench/Drafts.antt =====
-- The drafts of a task (app/services/task_service.py): how many are edited, and what saving does.
use human_llm_gateway.Prelude.{
  ℕ, ◌≤◌, ◌≡◌, refl, sym, ap, ◌∙◌, Bool, false, Option, none, some, List, [], ◌∷◌, inl, inr, ◌≢◌,
  arith, Bool-cases,
}
use human_llm_gateway.Domain.Enums.{DraftSource}
use human_llm_gateway.Model.Task.{RequestTask, TaskDraft}
use human_llm_gateway.Model.Account.{User}
use human_llm_gateway.Model.Db.{Db}
use human_llm_gateway.Result.{ok, >>=-eq-ok, ok-injective}
use human_llm_gateway.Table.Rows.{count_where, update_where, select_where}
use human_llm_gateway.Table.Counts.{count-update_same, update-unmatched}
use human_llm_gateway.Repositories.Drafts.{
  DraftPayload, is_active_draft, draft_values, newest, get_active_draft, update_active_draft_fields,
  create_draft,
}
use human_llm_gateway.Services.Governance.{audit}
use human_llm_gateway.Services.Workbench.{
  ReplyDraft, Libraries, validate_reply_draft, assert_writable, draft_payload, create_manual_draft,
  store_draft, saved_active, save_draft,
}

-- The partial unique index `uq_task_drafts_active_per_task`.
abbrev pub OneActive : Db → Type 0
OneActive db = (i : ℕ) → count_where (is_active_draft i) db.drafts ≤ 1

pub newest-none :
    (p : TaskDraft → Bool) (ds : List TaskDraft)
    → newest (select_where p ds) ≡ none
    → count_where p ds ≡ 0
unfolding newest
newest-none p [] h = refl
newest-none p (d ∷ ds) h = elim (Bool-cases (p d)) [
  | inl met ↦ cc (rw met at h)
  | inr other ↦ ground (arith, newest-none p ds (rw other at h))
]

saved_active-found :
    (now draft_id : ℕ) (task : RequestTask) (owner : User) (payload : DraftPayload)
    (found : Option TaskDraft) (db : Db) {r : TaskDraft × Db}
    → found ≢ none
    → saved_active now draft_id task owner payload found db ≡ ok r
    → (found ≡ some r.0) × (r.1 ≡ db)
unfolding saved_active
saved_active-found now draft_id task owner payload none db some_row h = absurd (some_row refl)
saved_active-found now draft_id task owner payload (some row) db some_row h =
    let e = ok-injective h in (ap (λ x. some x.0) e, sym (ap (λ x. x.1) e))

-- An update of the one active draft.
pub record IsUpdated (now task_id : ℕ) (payload : DraftPayload) (a : Db) (row : TaskDraft) (b : Db)
    : Type 0 where
  pub one : count_where (is_active_draft task_id) a.drafts ≡ 1
  pub rows : b.drafts ≡ update_where (is_active_draft task_id) (draft_values payload now) a.drafts
  pub active : get_active_draft b task_id ≡ some row

-- A new row where there was no active draft.
pub record IsNew (now draft_id : ℕ) (task : RequestTask) (owner : User) (payload : DraftPayload)
    (a : Db) (row : TaskDraft) (b : Db) : Type 0 where
  pub zero : count_where (is_active_draft task.id) a.drafts ≡ 0
  pub row_eq : row ≡ create_draft now draft_id task.id owner.id DraftSource.manual payload
  pub rows : b.drafts ≡ row ∷ a.drafts

pub updated-count :
    (now i j : ℕ) (payload : DraftPayload) (ds : List TaskDraft)
    → count_where
        (is_active_draft j)
        (update_where (is_active_draft i) (draft_values payload now) ds)
      ≡ count_where (is_active_draft j) ds
updated-count now i j payload ds =
    count-update_same (is_active_draft i) (is_active_draft j) (draft_values payload now)
      (λ d. ground arith) ds

pub stored-IsUpdated :
    (now draft_id : ℕ) (task : RequestTask) (owner : User) (payload : DraftPayload) (a : Db)
    {r : TaskDraft × Db}
    → count_where (is_active_draft task.id) a.drafts ≡ 1
    → store_draft now draft_id task owner payload (update_active_draft_fields now task.id payload a)
      ≡ ok r
    → IsUpdated now task.id payload a r.0 r.1
unfolding store_draft update_active_draft_fields get_active_draft
stored-IsUpdated now draft_id task owner payload a one h =
    let (found, same) =
      saved_active-found now draft_id task owner payload _ _
        (λ e. omega (
          arith,
          one,
          updated-count now task.id task.id payload a.drafts,
          newest-none (is_active_draft task.id)
              (update_where (is_active_draft task.id) (draft_values payload now) a.drafts) e,
        ))
        (rw one at h) in
    record {
      one = one;
      rows = ap (λ d. d.drafts) same;
      active = ap (λ d. get_active_draft d task.id) same ∙ found;
    }

manual-new :
    (now draft_id : ℕ) (task : RequestTask) (owner : User) (payload : DraftPayload) (a : Db)
    → count_where (is_active_draft task.id) a.drafts ≡ 0
    → let row = create_draft now draft_id task.id owner.id DraftSource.manual payload in
      create_manual_draft now draft_id task owner payload a
      ≡ ok (row, record a { drafts = row ∷ a.drafts })
unfolding create_manual_draft
manual-new now draft_id task owner payload a zero = rw zero refl

pub stored-IsNew :
    (now draft_id : ℕ) (task : RequestTask) (owner : User) (payload : DraftPayload) (a : Db)
    {r : TaskDraft × Db}
    → count_where (is_active_draft task.id) a.drafts ≡ 0
    → store_draft now draft_id task owner payload (update_active_draft_fields now task.id payload a)
      ≡ ok r
    → IsNew now draft_id task owner payload a r.0 r.1
unfolding store_draft update_active_draft_fields create_manual_draft
stored-IsNew now draft_id task owner payload a {r} zero h =
    let same =
      update-unmatched (is_active_draft task.id) (draft_values payload now) a.drafts zero in
    let created : create_manual_draft now draft_id task owner payload a ≡ ok r =
      rw (zero, same) at h in
    let e = ok-injective (sym (manual-new now draft_id task owner payload a zero) ∙ created) in
    record {
      zero = zero;
      row_eq = sym (ap (λ x. x.0) e);
      rows = sym (ap (λ x. x.1.drafts) e) ∙ ap (λ d. d ∷ a.drafts) (ap (λ x. x.0) e);
    }

pub save_draft-stored :
    (l : Libraries) (now draft_id : ℕ) (task : RequestTask) (owner : User) (draft : ReplyDraft)
    (a : Db) {r : TaskDraft × Db}
    → save_draft l now draft_id task owner draft a ≡ ok r
    → (s : TaskDraft × Db) × (store_draft now draft_id task owner
          (draft_payload l draft)
          (update_active_draft_fields now task.id (draft_payload l draft) a)
        ≡ ok s)
      × (s.0 ≡ r.0)
      × (s.1.drafts ≡ r.1.drafts)
unfolding save_draft audit
save_draft-stored l now draft_id task owner draft a h =
    let (_, _, h1) = >>=-eq-ok (assert_writable task owner) _ h in
    let (_, _, h2) = >>=-eq-ok (validate_reply_draft l task draft false) _ h1 in
    let (s, stored, h3) =
      >>=-eq-ok
        (store_draft now draft_id task owner (draft_payload l draft)
          (update_active_draft_fields now task.id (draft_payload l draft) a))
        _ h2 in
    let e = ok-injective h3 in (s, stored, ap (λ x. x.0) e, ap (λ x. x.1.drafts) e)
