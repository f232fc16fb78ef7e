-- ===== src/Messages/Refinement.antt =====
-- What a message does to the tasks (app/services/connection_service.py), as a step of the step
-- relation.
use human_llm_gateway.Prelude.{
  Bool, true, false, ◌≡◌, ◌⊎◌, inl, inr, refl, String, Option, none, some, ◌∷◌, is_empty, if-holds,
}
use human_llm_gateway.Model.Connection.{ImConnection, InboundReceipt}
use human_llm_gateway.Model.Db.{Db}
use human_llm_gateway.Result.{Result, ok, err, Returns, Returns-map, returned}
use human_llm_gateway.Repositories.Tasks.{first_reply_wins}
use human_llm_gateway.Repositories.Receipts.{
  get_receipt, insert_receipt, record_receipt, bind_external_user, store_result,
}
use human_llm_gateway.Services.Inbound.{InboundEnv, InboundMessage, Handled, add_audit}
use human_llm_gateway.Services.Inbound.Handler.{
  submit_task_reply, Answer, finish, binding_ok, bind, is_stranger, after_receipt, receipt_for,
  handle_new, handle_inbound,
}
use human_llm_gateway.Lifecycle.Steps.{Step, reply}
use human_llm_gateway.Messages.Audits.{audit_accepted-holds}
use human_llm_gateway.Messages.Frames.{Replied, KeepsResult}
use human_llm_gateway.Messages.Owned.{submit_task_reply-Keeps}

after_receipt-Replied :
    (env : InboundEnv) (row : ImConnection) (message : InboundMessage) (user : Option String)
    (a : Db)
    → Returns (λ (h : Handled). Replied a h.db) (after_receipt env row message user a)
unfolding after_receipt bind bind_external_user add_audit
after_receipt-Replied env row message none a =
    if-holds (λ (h : Handled). Replied a h.db) (binding_ok env row message) (inl refl) (inl refl)
after_receipt-Replied env row message (some user) a =
    if-holds (Returns (λ (h : Handled). Replied a h.db)) (is_stranger user message) (inl refl)
      (replied (submit_task_reply env row message a) (submit_task_reply-Keeps env row message a))
  where
    replied :
        (call : Result Handled)
        → KeepsResult row a call
        → Returns (λ (h : Handled). Replied a h.db) call
    replied (err failure) h = tt
    replied (ok handled) h = h.1

finish-Replied :
    (env : InboundEnv) (a : Db) (h : Handled) → Replied a h.db → Replied a (finish env h).db
unfolding store_result add_audit
finish-Replied env a h same =
    audit_accepted-holds (Replied a) h.db same (λ task. same) h.result h.task_id

insert-Replied :
    (env : InboundEnv) (row : ImConnection) (message : InboundMessage)
    (found : Option InboundReceipt) (receipt : InboundReceipt) (a : Db)
    → Returns
        (λ (r : Answer). Replied a r.db)
        (handle_new env row message (insert_receipt found receipt a) a)
unfolding handle_new first_reply_wins
insert-Replied env row message (some existing) receipt a = inl refl
insert-Replied env row message none receipt a =
    let received = record a { receipts = receipt ∷ a.receipts } in
    Returns-map _ _ (finish env) (after_receipt env row message row.bound_external_user_id received)
      (finish-Replied env received)
      (after_receipt-Replied env row message row.bound_external_user_id received)

-- The transaction is a reply.
abbrev pub is_reply : {a b : Db} → Step a b → Bool
is_reply (reply now task_id o version payload e) = true
is_reply _ = false

as_step :
    (a b : Db)
    → Replied a b
    → (b.tasks ≡ a.tasks) ⊎ ((c : Db) × (s : Step a c) × (is_reply s ≡ true) × (b.tasks ≡ c.tasks))
as_step a b (inl same) = inl same
as_step a b (inr (now, i, o, v, payload, stored)) =
    inr ((first_reply_wins now i o v payload a).1, reply now i o v payload refl, refl, stored)

-- A message that the inbound handler handles without an exception leaves the tasks as they are,
-- or as one reply transaction of the step relation leaves them.
pub handle_inbound-refines :
    (env : InboundEnv) (row : ImConnection) (message : InboundMessage) (a : Db) {r : Answer}
    → handle_inbound env row message a ≡ ok r
    → (r.db.tasks ≡ a.tasks)
      ⊎ ((c : Db) × (s : Step a c) × (is_reply s ≡ true) × (r.db.tasks ≡ c.tasks))
unfolding handle_inbound record_receipt
handle_inbound-refines env row message a {r} h =
    let receipt = receipt_for env row message in
    as_step a r.db (
      returned (λ (r : Answer). Replied a r.db) _
        (if-holds (Returns (λ (r : Answer). Replied a r.db)) (is_empty message.external_message_id)
          (inl refl)
          (insert-Replied env row message
            (get_receipt a receipt.connection_id receipt.external_message_id) receipt a))
        h)
