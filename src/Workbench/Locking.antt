-- ===== src/Workbench/Locking.antt =====
-- The optimistic lock of `update_draft`.
use human_llm_gateway.Prelude.{
  ℕ, ◌+◌, stripped_option, ◌≤◌, ◌≡◌, ◌≢◌, sym, ap, ◌∙◌, Bool, true, false, Option, none, some,
  arith, ==_iff, ◌==◌, ◌&&◌, not,
}
use mathlib.Core.Option
use mathlib.Core.Path.{subst}
use human_llm_gateway.Domain.Enums.{is_editing}
use human_llm_gateway.Model.Task.{RequestTask, TaskDraft}
use human_llm_gateway.Model.Account.{User}
use human_llm_gateway.Model.Db.{Db}
use human_llm_gateway.Result.{ok, ok-injective, refuse_if-passed}
use human_llm_gateway.Table.Rows.{count_where, update_row, find_where}
use human_llm_gateway.Table.Counts.{find-update, count-update_same}
use human_llm_gateway.Table.Keys.{matched_row, updated_met}
use human_llm_gateway.Repositories.Drafts.{
  draft_values, get_draft, update_draft_fields, version_condition,
}
use human_llm_gateway.Services.Workbench.{ReplyDraft, Libraries, draft_payload}
use human_llm_gateway.Services.Workbench.Edits.{own_draft, update_draft}
use human_llm_gateway.Workbench.Edits.{update_draft-passed, matched-ok}

abbrev pub draft_has_id : ℕ → TaskDraft → Bool
draft_has_id i d = d.id == i

abbrev pub UniqueDrafts : Db → Type 0
UniqueDrafts db = (i : ℕ) → count_where (draft_has_id i) db.drafts ≤ 1

-- The stored draft is the writer's own, is being edited, and has the version that was seen; the
-- result is that row with the texts of the reply, stripped, its calls, the next version and the
-- time.
pub record IsOverwritten (l : Libraries) (now : ℕ) (task : RequestTask) (owner : User)
    (draft_id : ℕ) (draft : ReplyDraft) (version : ℕ) (a : Db) (row : TaskDraft) (b : Db)
    : Type 0 where
  pub before : TaskDraft
  pub before_eq : get_draft a draft_id ≡ some before
  pub same_version : before.version ≡ version
  pub own : (before.task_id == task.id && before.owner_user_id == owner.id) ≡ true
  pub being_edited : is_editing before.state ≡ true
  pub row_eq : row ≡ record before {
    reasoning_text = stripped_option draft.reasoning;
    tool_calls_json = l.dump_calls draft.tool_calls;
    final_text = stripped_option draft.final_text;
    version = before.version + 1;
    updated_at = now;
  }
  pub stored : get_draft b draft_id ≡ some row

held : (b : Bool) → not b ≡ false → b ≡ true
held b h = ground arith

some-injective : {d e : TaskDraft} → some d ≡ some e → d ≡ e
some-injective h = cc

own_draft-ok :
    (task : RequestTask) (owner : User) (o : Option TaskDraft) {row : TaskDraft}
    → own_draft task owner o ≡ ok row
    → (o ≡ some row)
      × ((row.task_id == task.id && row.owner_user_id == owner.id) ≡ true)
      × (is_editing row.state ≡ true)
unfolding own_draft
own_draft-ok task owner none h = cc h
own_draft-ok task owner (some d) {row} h =
    let (mine, h1) =
      refuse_if-passed (not (d.task_id == task.id && d.owner_user_id == owner.id)) _ _ h in
    let (editing, h2) = refuse_if-passed (not (is_editing d.state)) _ _ h1 in
    let same : d ≡ row = ok-injective h2 in
    (
      ap some same,
      subst (λ x. (x.task_id == task.id && x.owner_user_id == owner.id) ≡ true) same
          (held (d.task_id == task.id && d.owner_user_id == owner.id) mine),
      subst (λ x. is_editing x.state ≡ true) same (held (is_editing d.state) editing),
    )

-- With unique draft keys, a successful update meets the writer's own draft, being edited, at the
-- version that was seen, and stores the reply's stripped texts and its calls under the next
-- version, with the time, and the rest of the row as it was.
pub update_draft-IsOverwritten :
    (l : Libraries) (now : ℕ) (task : RequestTask) (owner : User) (draft_id : ℕ)
    (draft : ReplyDraft) (version : ℕ) (a : Db) {row : TaskDraft} {b : Db}
    → UniqueDrafts a
    → update_draft l now task owner draft_id draft version a ≡ ok (row, b)
    → IsOverwritten l now task owner draft_id draft version a row b
unfolding update_draft_fields get_draft draft_payload
update_draft-IsOverwritten l now task owner draft_id draft version a {row} {b} unique h =
    let p = version_condition draft_id version in
    let f = draft_values (draft_payload l draft) now in
    let (before, own, met, stored) =
      update_draft-passed l now task owner draft_id draft version a h in
    let (found, mine, editing) = own_draft-ok task owner (get_draft a draft_id) own in
    let (one, same) =
      matched-ok (update_draft_fields now draft_id version (draft_payload l draft) a) met in
    let (d, found_d, met_d) =
      matched_row p (draft_has_id draft_id) a.drafts (λ x m. ground arith)
        ((==_iff (count_where p a.drafts) 1).0 one) (unique draft_id) in
    let before_d : before ≡ d = some-injective (sym found ∙ found_d) in
    record {
      before = d;
      before_eq = found_d;
      same_version = ground arith;
      own = subst (λ x. (x.task_id == task.id && x.owner_user_id == owner.id) ≡ true) before_d mine;
      being_edited = subst (λ x. is_editing x.state ≡ true) before_d editing;
      row_eq = some-injective (
          sym stored
          ∙ (ap (λ x. find_where (draft_has_id draft_id) x.drafts) (sym same)
              ∙ (find-update (draft_has_id draft_id) p f a.drafts (λ x. ground arith)
                  ∙ (ap (Option.map (update_row p f)) found_d
                      ∙ ap some (updated_met p f d met_d)))));
      stored = stored;
    }

overwritten-keys :
    (l : Libraries) (now : ℕ) (task : RequestTask) (owner : User) (draft_id : ℕ)
    (draft : ReplyDraft) (version : ℕ) (a : Db) {row : TaskDraft} {b : Db}
    → UniqueDrafts a
    → update_draft l now task owner draft_id draft version a ≡ ok (row, b)
    → UniqueDrafts b
unfolding update_draft_fields
overwritten-keys l now task owner draft_id draft version a {row} {b} unique h =
    let (_, _, met, _) = update_draft-passed l now task owner draft_id draft version a h in
    let (_, same) =
      matched-ok (update_draft_fields now draft_id version (draft_payload l draft) a) met in
    λ i. omega (
      arith,
      unique i,
      ap (λ x. count_where (draft_has_id i) x.drafts) same,
      count-update_same (version_condition draft_id version) (draft_has_id i)
          (draft_values (draft_payload l draft) now) (λ d. ground arith) a.drafts,
    )

-- With unique draft keys, on the database that a successful update of a draft leaves, a second
-- update of that draft from the same version does not succeed.
pub update_draft-once :
    (l : Libraries) (now later : ℕ) (task task' : RequestTask) (owner owner' : User) (draft_id : ℕ)
    (draft draft' : ReplyDraft) (version : ℕ) (a : Db) {row : TaskDraft} {b : Db}
    (r : TaskDraft × Db)
    → UniqueDrafts a
    → update_draft l now task owner draft_id draft version a ≡ ok (row, b)
    → update_draft l later task' owner' draft_id draft' version b ≢ ok r
update_draft-once l now later task task' owner owner' draft_id draft draft' version a r unique h
      h2 =
    let first = update_draft-IsOverwritten l now task owner draft_id draft version a unique h in
    let next =
      update_draft-IsOverwritten l later task' owner' draft_id draft' version _
        (overwritten-keys l now task owner draft_id draft version a unique h) h2 in
    let again = some-injective (sym first.stored ∙ next.before_eq) in
    omega (
      arith,
      first.same_version,
      next.same_version,
      ap (λ d. d.version) first.row_eq,
      ap (λ d. d.version) again,
    )
