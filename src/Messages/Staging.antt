-- ===== src/Messages/Staging.antt =====
-- Staging an answer (app/services/connection_service.py), and the drafts of its task.
use human_llm_gateway.Prelude.{
  ℕ, ◌≡◌, refl, ap, String, Option, none, some, ◌==◌, bit, arith, is_empty, if-holds, ==_iff,
  Bool-cases, inl, inr,
}
use human_llm_gateway.Model.Task.{RequestTask, TaskDraft}
use human_llm_gateway.Model.Connection.{ImConnection}
use human_llm_gateway.Model.Db.{Db}
use human_llm_gateway.Table.Rows.{count_where, update_row}
use human_llm_gateway.Repositories.Drafts.{is_active_draft, get_active_draft, create_draft}
use human_llm_gateway.Services.Inbound.{InboundEnv, Handled}
use human_llm_gateway.Services.Inbound.Staging.{
  StageKind, reasoning_kind, final_kind, staged_values, editable, stage_on, stage_draft,
}
use human_llm_gateway.Workbench.Drafts.{OneActive, newest-none}
use human_llm_gateway.Workbench.Edits.{update-OneActive}

staged-active :
    (now i k : ℕ) (kind : StageKind) (body : String) (d : TaskDraft)
    → is_active_draft i (update_row (λ d. d.id == k) (staged_values now kind body) d)
      ≡ is_active_draft i d
staged-active now i k reasoning_kind body d = ground arith
staged-active now i k final_kind body d = ground arith

stage_on-OneActive :
    (env : InboundEnv) (kind : StageKind) (body : String) (d : TaskDraft) (a : Db)
    → OneActive a
    → OneActive (stage_on env kind body (d, a))
stage_on-OneActive env kind body d a one = λ i. omega (
  arith,
  one i,
  update-OneActive (λ e. e.id == d.id) (staged_values env.now kind body) a.drafts i
      (λ e. omega (arith, ap bit (staged-active env.now i d.id kind body e))),
)

-- A draft that is created for a task without an active one is its only one.
created-OneActive :
    (env : InboundEnv) (task : RequestTask) (a : Db)
    → get_active_draft a task.id ≡ none
    → OneActive a
    → OneActive (editable env task none a).1
unfolding create_draft get_active_draft
created-OneActive env task a absent one i = elim (Bool-cases (task.id == i)) [
  | inl same ↦
      let own = newest-none (is_active_draft task.id) a.drafts absent in
      let here = ap (λ j. count_where (is_active_draft j) a.drafts) ((==_iff task.id i).0 same) in
      ground (arith, own, here)
  | inr other ↦ ground (arith, one i)
]

staged-OneActive :
    (env : InboundEnv) (task : RequestTask) (kind : StageKind) (body : String)
    (found : Option TaskDraft) (a : Db)
    → get_active_draft a task.id ≡ found
    → OneActive a
    → OneActive (stage_on env kind body (editable env task found a))
staged-OneActive env task kind body none a absent one =
    let (draft, created) = editable env task none a in
    stage_on-OneActive env kind body draft created (created-OneActive env task a absent one)
staged-OneActive env task kind body (some draft) a found one =
    stage_on-OneActive env kind body draft a one

-- Where every task has one active draft at most, staging an answer from a messenger leaves it
-- so.
pub stage_draft-OneActive :
    (env : InboundEnv) (row : ImConnection) (task : Option RequestTask) (kind : StageKind)
    (body : String) (a : Db)
    → OneActive a
    → OneActive (stage_draft env row task kind body a).db
unfolding stage_draft
stage_draft-OneActive env row none kind body a one = one
stage_draft-OneActive env row (some task) kind body a one =
    if-holds (λ (h : Handled). OneActive h.db) (is_empty body) one
      (staged-OneActive env task kind body (get_active_draft a task.id) a refl one)
