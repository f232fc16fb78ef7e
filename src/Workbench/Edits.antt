-- ===== src/Workbench/Edits.antt =====
-- `update_draft`, and the drafts under all calls of the workbench (app/services/task_service.py).
use mathlib.Core.Path.{subst}
use human_llm_gateway.Prelude.{
  ℕ, ◌≤◌, ◌≡◌, refl, sym, ap, ◌∙◌, String, Bool, true, false, Option, none, some, List, [], ◌∷◌,
  arith, ◌==◌, bit,
}
use human_llm_gateway.Domain.Enums.{submitted}
use human_llm_gateway.Model.Task.{RequestTask, TaskDraft}
use human_llm_gateway.Model.Account.{User}
use human_llm_gateway.Model.Db.{Db}
use human_llm_gateway.Result.{ok, >>=-eq-ok, ok-injective, required, required-ok}
use human_llm_gateway.Table.Rows.{count_where, update_where, update_row}
use human_llm_gateway.Table.Counts.{count-delete-le}
use human_llm_gateway.Repositories.Tasks.{first_reply_wins}
use human_llm_gateway.Repositories.Drafts.{
  DraftPayload, is_active_draft, draft_values, get_draft, update_draft_fields, version_condition,
  mark_draft_state, editing_with_id, state_values, delete_row,
}
use human_llm_gateway.Services.Delivery.{add_event}
use human_llm_gateway.Services.Governance.{audit}
use human_llm_gateway.Services.Workbench.{
  ReplyDraft, Libraries, draft_payload, validate_reply_draft, assert_writable, save_draft,
}
use human_llm_gateway.Services.Workbench.Edits.{
  own_draft, matched, mark_source, update_draft, delete_draft, after_submit, submit_reply,
}
use human_llm_gateway.Workbench.Drafts.{OneActive}
use human_llm_gateway.Workbench.Replies.{submit_reply-passed}
use human_llm_gateway.Workbench.Saving.{save_draft-IsSaved}

pub update_draft-passed :
    (l : Libraries) (now : ℕ) (task : RequestTask) (owner : User) (draft_id : ℕ)
    (draft : ReplyDraft) (version : ℕ) (a : Db) {r : TaskDraft × Db}
    → update_draft l now task owner draft_id draft version a ≡ ok r
    → (row : TaskDraft) × (own_draft task owner (get_draft a draft_id) ≡ ok row)
      × (matched (update_draft_fields now draft_id version (draft_payload l draft) a) ≡ ok r.1)
      × (get_draft r.1 draft_id ≡ some r.0)
unfolding update_draft
update_draft-passed l now task owner draft_id draft version a {r} h =
    let (_, _, h1) = >>=-eq-ok (assert_writable task owner) _ h in
    let (_, _, h2) = >>=-eq-ok (validate_reply_draft l task draft false) _ h1 in
    let (row, own, h3) = >>=-eq-ok (own_draft task owner (get_draft a draft_id)) _ h2 in
    let (stored, met, h4) =
      >>=-eq-ok (matched (update_draft_fields now draft_id version (draft_payload l draft) a)) _
        h3 in
    let (updated, found, h5) = >>=-eq-ok (required (get_draft stored draft_id)) _ h4 in
    let e = ok-injective h5 in
    (
      row,
      own,
      met ∙ ap (λ x. ok x.1) e,
      ap (λ x. get_draft x.1 draft_id) (sym e)
          ∙ (required-ok (get_draft stored draft_id) found ∙ ap (λ x. some x.0) e),
    )

pub matched-ok : (x : Bool × Db) {b : Db} → matched x ≡ ok b → (x.0 ≡ true) × (x.1 ≡ b)
unfolding matched
matched-ok (true, db) h = (refl, ok-injective h)
matched-ok (false, db) h = cc h

-- The calls of the workbench that write drafts.
pub data DraftStep (a b : Db) : Type 0 where
  save :
      (l : Libraries) (now draft_id : ℕ) (task : RequestTask) (owner : User) (draft : ReplyDraft)
      (row : TaskDraft)
      → save_draft l now draft_id task owner draft a ≡ ok (row, b)
      → DraftStep a b
  update :
      (l : Libraries) (now : ℕ) (task : RequestTask) (owner : User) (draft_id : ℕ)
      (draft : ReplyDraft) (version : ℕ) (row : TaskDraft)
      → update_draft l now task owner draft_id draft version a ≡ ok (row, b)
      → DraftStep a b
  delete :
      (task : RequestTask) (owner : User) (draft_id : ℕ)
      → delete_draft task owner draft_id a ≡ ok b
      → DraftStep a b
  submit :
      (l : Libraries) (now : ℕ) (task : RequestTask) (owner : User) (draft : ReplyDraft)
      (source : Option ℕ) (done : Bool)
      → submit_reply l now task owner draft source a ≡ ok (done, b)
      → DraftStep a b

pub update-OneActive :
    (p : TaskDraft → Bool) (f : TaskDraft → TaskDraft) (ds : List TaskDraft) (i : ℕ)
    → ((d : TaskDraft) → bit (is_active_draft i (update_row p f d)) ≤ bit (is_active_draft i d))
    → count_where (is_active_draft i) (update_where p f ds) ≤ count_where (is_active_draft i) ds
update-OneActive p f [] i h = omega arith
update-OneActive p f (d ∷ ds) i h = omega (arith, h d, update-OneActive p f ds i h)

fields-OneActive :
    (now draft_id version : ℕ) (payload : DraftPayload) (a : Db)
    → OneActive a
    → OneActive (update_draft_fields now draft_id version payload a).1
unfolding update_draft_fields
fields-OneActive now draft_id version payload a one = λ i. omega (
  arith,
  one i,
  update-OneActive (version_condition draft_id version) (draft_values payload now) a.drafts i
      (λ d. ground arith),
)

delete_row-OneActive : (draft_id : ℕ) (a : Db) → OneActive a → OneActive (delete_row draft_id a)
unfolding delete_row
delete_row-OneActive draft_id a one = λ i. omega (
  arith,
  one i,
  count-delete-le (λ (d : TaskDraft). d.id == draft_id) (is_active_draft i) a.drafts,
)

mark_source-OneActive :
    (now : ℕ) (source : Option ℕ) (a : Db) → OneActive a → OneActive (mark_source now source a)
unfolding mark_source mark_draft_state
mark_source-OneActive now none a one = one
mark_source-OneActive now (some draft_id) a one = λ i. omega (
  arith,
  one i,
  update-OneActive (editing_with_id draft_id) (state_values submitted now) a.drafts i
      (λ d. ground arith),
)

after_submit-OneActive :
    (now : ℕ) (task : RequestTask) (owner : User) (source : Option ℕ) (x : Bool × Db)
    → OneActive x.1
    → OneActive (after_submit now task owner source x).1
unfolding after_submit audit add_event
after_submit-OneActive now task owner source (true, db) one = mark_source-OneActive now source _ one
after_submit-OneActive now task owner source (false, db) one = one

reply-OneActive :
    (now i o v : ℕ) (payload : String) (a : Db)
    → OneActive a
    → OneActive (first_reply_wins now i o v payload a).1
unfolding first_reply_wins
reply-OneActive now i o v payload a one = one

delete_draft-row :
    (task : RequestTask) (owner : User) (draft_id : ℕ) (a : Db) {b : Db}
    → delete_draft task owner draft_id a ≡ ok b
    → (i : ℕ) × (delete_row i a ≡ b)
unfolding delete_draft
delete_draft-row task owner draft_id a h =
    let (_, _, h1) = >>=-eq-ok (assert_writable task owner) _ h in
    let (row, _, h2) = >>=-eq-ok (own_draft task owner (get_draft a draft_id)) _ h1 in
    (row.id, ok-injective h2)

-- No successful call of the workbench that writes drafts gives a task a second active draft.
pub DraftStep-OneActive : {a b : Db} → DraftStep a b → OneActive a → OneActive b
DraftStep-OneActive {a} (save l now draft_id task owner draft row h) one =
    (save_draft-IsSaved l now draft_id task owner draft a one h).one_active
DraftStep-OneActive {a} {b} (update l now task owner draft_id draft version row h) one =
    let (_, _, met, _) = update_draft-passed l now task owner draft_id draft version a h in
    subst OneActive
      (matched-ok (update_draft_fields now draft_id version (draft_payload l draft) a) met).1
      (fields-OneActive now draft_id version (draft_payload l draft) a one)
DraftStep-OneActive {a} {b} (delete task owner draft_id h) one =
    let (i, e) = delete_draft-row task owner draft_id a h in
    subst OneActive e (delete_row-OneActive i a one)
DraftStep-OneActive {a} {b} (submit l now task owner draft source done h) one =
    let (_, _, _, run) = submit_reply-passed l now task owner draft source a h in
    subst OneActive (ap (λ x. x.1) run) (
      after_submit-OneActive now task owner source _
        (reply-OneActive now task.id task.owner_user_id task.version (l.dump_reply draft) a one))
