-- ===== src/Messages/Foreign.antt =====
-- A message, and the accounts and tasks of other users (app/services/connection_service.py).
use human_llm_gateway.Prelude.{
  ◌≡◌, refl, ap, ◌∙◌, String, Option, none, some, List, ◌∷◌, is_empty, if-holds,
}
use human_llm_gateway.Model.Task.{RequestTask}
use human_llm_gateway.Model.Account.{User, AuthSession, ApiKey}
use human_llm_gateway.Model.Connection.{ImConnection, InboundReceipt}
use human_llm_gateway.Model.Db.{Db}
use human_llm_gateway.Result.{Result, ok, err, Returns, Returns-map, returned}
use human_llm_gateway.Repositories.Receipts.{
  get_receipt, insert_receipt, record_receipt, bind_external_user, store_result,
}
use human_llm_gateway.Services.Inbound.{InboundEnv, InboundMessage, Handled, add_audit}
use human_llm_gateway.Services.Inbound.Handler.{
  submit_task_reply, Answer, finish, binding_ok, bind, is_stranger, after_receipt, receipt_for,
  handle_new, handle_inbound,
}
use human_llm_gateway.Messages.Frames.{foreign_tasks, Frame, KeepsResult}
use human_llm_gateway.Messages.Audits.{audit_accepted-holds}
use human_llm_gateway.Messages.Owned.{submit_task_reply-Keeps}

-- The accounts and the tasks of other users.
pub record Outside : Type 0 where
  pub users : List User
  pub sessions : List AuthSession
  pub api_keys : List ApiKey
  pub foreign : List RequestTask

abbrev pub outside : ImConnection → Db → Outside
outside row db = record {
  users = db.users;
  sessions = db.sessions;
  api_keys = db.api_keys;
  foreign = foreign_tasks row db;
}

abbrev outside_of : Frame → Outside
outside_of f = record {
  users = f.users;
  sessions = f.sessions;
  api_keys = f.api_keys;
  foreign = f.foreign;
}

abbrev Spares : ImConnection → Db → Handled → Type 0
Spares row a h = outside row h.db ≡ outside row a

bind-Spares :
    (env : InboundEnv) (row : ImConnection) (message : InboundMessage) (a : Db)
    → Spares row a (bind env row message a)
unfolding bind bind_external_user add_audit
bind-Spares env row message a = if-holds (Spares row a) (binding_ok env row message) refl refl

after_receipt-Spares :
    (env : InboundEnv) (row : ImConnection) (message : InboundMessage) (user : Option String)
    (a : Db)
    → Returns (Spares row a) (after_receipt env row message user a)
unfolding after_receipt
after_receipt-Spares env row message none a = bind-Spares env row message a
after_receipt-Spares env row message (some user) a =
    if-holds (Returns (Spares row a)) (is_stranger user message) refl
      (spares (submit_task_reply env row message a) (submit_task_reply-Keeps env row message a))
  where
    spares : (call : Result Handled) → KeepsResult row a call → Returns (Spares row a) call
    spares (err failure) h = tt
    spares (ok handled) h = ap outside_of h.0

finish-outside :
    (env : InboundEnv) (row : ImConnection) (h : Handled)
    → outside row (finish env h).db ≡ outside row h.db
unfolding store_result add_audit
finish-outside env row h =
    audit_accepted-holds (λ b. outside row b ≡ outside row h.db) h.db refl (λ task. refl) h.result
      h.task_id

insert-outside :
    (env : InboundEnv) (row : ImConnection) (message : InboundMessage)
    (found : Option InboundReceipt) (receipt : InboundReceipt) (a : Db)
    → Returns
        (λ (r : Answer). outside row r.db ≡ outside row a)
        (handle_new env row message (insert_receipt found receipt a) a)
unfolding handle_new
insert-outside env row message (some existing) receipt a = refl
insert-outside env row message none receipt a =
    let received = record a { receipts = receipt ∷ a.receipts } in
    Returns-map _ _ (finish env) (after_receipt env row message row.bound_external_user_id received)
      (λ h spared. finish-outside env row h ∙ spared)
      (after_receipt-Spares env row message row.bound_external_user_id received)

-- A message that is handled without an exception leaves all users, sessions and API keys as they
-- are, and the tasks of every user but the connection's owner.
pub handle_inbound-outside :
    (env : InboundEnv) (row : ImConnection) (message : InboundMessage) (a : Db) {r : Answer}
    → handle_inbound env row message a ≡ ok r
    → outside row r.db ≡ outside row a
unfolding handle_inbound record_receipt
handle_inbound-outside env row message a h =
    let receipt = receipt_for env row message in
    returned (λ (r : Answer). outside row r.db ≡ outside row a) _
      (if-holds (Returns (λ (r : Answer). outside row r.db ≡ outside row a))
        (is_empty message.external_message_id) refl
        (insert-outside env row message
          (get_receipt a receipt.connection_id receipt.external_message_id) receipt a))
      h
