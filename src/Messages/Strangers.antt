-- ===== src/Messages/Strangers.antt =====
-- A message of a sender whom the connection is not bound to (app/services/connection_service.py).
use human_llm_gateway.Prelude.{
  ◌≡◌, refl, Bool, true, false, not, String, Option, none, some, List, ◌∷◌, is_empty, if-holds,
  arith,
}
use human_llm_gateway.Domain.Enums.{InboundResult, accepted, late}
use human_llm_gateway.Model.Task.{RequestTask, TaskEvent, TaskDraft, TaskInboxState}
use human_llm_gateway.Model.Connection.{ImConnection, InboundReceipt, ConnectorOutbox}
use human_llm_gateway.Model.Db.{Db}
use human_llm_gateway.Result.{ok, Returns, Returns-map, returned}
use human_llm_gateway.Repositories.Receipts.{
  get_receipt, insert_receipt, record_receipt, bind_external_user, store_result,
}
use human_llm_gateway.Services.Inbound.{InboundEnv, InboundMessage, Handled, add_audit}
use human_llm_gateway.Services.Inbound.Handler.{
  Answer, finish, binding_ok, bind, is_stranger, after_receipt, receipt_for, handle_new,
  handle_inbound,
}
use human_llm_gateway.Messages.Audits.{audit_accepted-holds}

-- What the work on tasks is kept in.
pub record Work : Type 0 where
  pub tasks : List RequestTask
  pub events : List TaskEvent
  pub drafts : List TaskDraft
  pub inbox : List TaskInboxState
  pub outbox : List ConnectorOutbox

abbrev pub work : Db → Work
work db = record {
  tasks = db.tasks;
  events = db.events;
  drafts = db.drafts;
  inbox = db.inbox;
  outbox = db.outbox;
}

-- The connection is bound, and not to somebody else.
abbrev pub is_bound_to : Option String → InboundMessage → Bool
is_bound_to none message = false
is_bound_to (some user) message = not (is_stranger user message)

-- A result that is about a task.
abbrev pub concerns_task : InboundResult → Bool
concerns_task accepted = true
concerns_task late = true
concerns_task _ = false

-- Nothing was done for a task.
abbrev Idle : Db → InboundResult → Db → Type 0
Idle a result b = (concerns_task result ≡ false) × (work b ≡ work a)

after_receipt-Idle :
    (env : InboundEnv) (row : ImConnection) (message : InboundMessage) (user : Option String)
    (a : Db)
    → is_bound_to user message ≡ false
    → Returns (λ (h : Handled). Idle a h.result h.db) (after_receipt env row message user a)
unfolding after_receipt bind bind_external_user add_audit
after_receipt-Idle env row message none a outside =
    if-holds (λ (h : Handled). Idle a h.result h.db) (binding_ok env row message) (refl, refl)
      (refl, refl)
after_receipt-Idle env row message (some user) a outside =
    let stranger : is_stranger user message ≡ true = not_false (is_stranger user message) outside in
    rw stranger (refl, refl)
  where
    not_false : (b : Bool) → not b ≡ false → b ≡ true
    not_false b h = ground arith

finish-Idle :
    (env : InboundEnv) (a : Db) (h : Handled)
    → Idle a h.result h.db
    → Idle a (finish env h).result (finish env h).db
unfolding store_result add_audit
finish-Idle env a h (result, same) = (
  result,
  audit_accepted-holds (λ b. work b ≡ work a) h.db same (λ task. same) h.result h.task_id,
)

insert-Idle :
    (env : InboundEnv) (row : ImConnection) (message : InboundMessage)
    (found : Option InboundReceipt) (receipt : InboundReceipt) (a : Db)
    → is_bound_to row.bound_external_user_id message ≡ false
    → Returns
        (λ (r : Answer). Idle a r.result r.db)
        (handle_new env row message (insert_receipt found receipt a) a)
unfolding handle_new
insert-Idle env row message (some existing) receipt a outside = (refl, refl)
insert-Idle env row message none receipt a outside =
    let received = record a { receipts = receipt ∷ a.receipts } in
    Returns-map _ _ (finish env) (after_receipt env row message row.bound_external_user_id received)
      (finish-Idle env a)
      (after_receipt-Idle env row message row.bound_external_user_id received outside)

-- A message that is handled without an exception on a connection that is bound to nobody, or
-- that names a sender other than the bound user, has no result that concerns a task, and leaves
-- tasks, events, drafts, inbox rows and outbox as they are.
pub handle_inbound-outsider :
    (env : InboundEnv) (row : ImConnection) (message : InboundMessage) (a : Db) {r : Answer}
    → handle_inbound env row message a ≡ ok r
    → is_bound_to row.bound_external_user_id message ≡ false
    → (concerns_task r.result ≡ false) × (work r.db ≡ work a)
unfolding handle_inbound record_receipt
handle_inbound-outsider env row message a h outside =
    let receipt = receipt_for env row message in
    returned (λ (r : Answer). Idle a r.result r.db) _
      (if-holds (Returns (λ (r : Answer). Idle a r.result r.db))
        (is_empty message.external_message_id) (refl, refl)
        (insert-Idle env row message
          (get_receipt a receipt.connection_id receipt.external_message_id) receipt a outside))
      h
