-- ===== src/Messages/Once.antt =====
-- Repeated messages (`_handle_inbound` of app/services/connection_service.py), while their receipt is
-- kept. The receipts of a connection go when it is deleted, and old ones in the data retention; a
-- message without a receipt is new.
use mathlib.Core.Option
use text.Mathlib.TextPositions.{eq_refl}
use human_llm_gateway.Prelude.{
  ℕ, ◌≡◌, refl, ap, ◌∙◌, String, Bool, true, false, Option, none, some, ◌∷◌, ◌==◌, ==_iff, is_empty,
  if-holds, arith,
}
use human_llm_gateway.Model.Connection.{ImConnection, InboundReceipt}
use human_llm_gateway.Model.Db.{Db}
use human_llm_gateway.Domain.Enums.{duplicate}
use human_llm_gateway.Result.{Result, ok, err, Returns, Returns-map, returned}
use human_llm_gateway.Table.Rows.{update_row, find_where}
use human_llm_gateway.Table.Counts.{find-update}
use human_llm_gateway.Commands.Syntax.{is_some}
use human_llm_gateway.Repositories.Receipts.{
  receipt_of, get_receipt, insert_receipt, record_receipt, bind_external_user, store_result,
  result_values,
}
use human_llm_gateway.Services.Inbound.{InboundEnv, InboundMessage, Handled, add_audit}
use human_llm_gateway.Services.Inbound.Handler.{
  submit_task_reply, Answer, answered, finish, binding_ok, bind, is_stranger, after_receipt,
  receipt_for, handle_new, handle_inbound,
}
use human_llm_gateway.Messages.Frames.{KeepsResult}
use human_llm_gateway.Messages.Audits.{audit_accepted-holds}
use human_llm_gateway.Messages.Owned.{submit_task_reply-Keeps}

-- The connection has a receipt of the message.
abbrev pub is_known : ℕ → String → Db → Bool
is_known connection_id external_id a =
    is_some (find_where (receipt_of connection_id external_id) a.receipts)

abbrev KeepsReceipts : Db → Handled → Type 0
KeepsReceipts a h = h.db.receipts ≡ a.receipts

after_receipt-receipts :
    (env : InboundEnv) (row : ImConnection) (message : InboundMessage) (user : Option String)
    (a : Db)
    → Returns (KeepsReceipts a) (after_receipt env row message user a)
unfolding after_receipt bind bind_external_user add_audit
after_receipt-receipts env row message none a =
    if-holds (KeepsReceipts a) (binding_ok env row message) refl refl
after_receipt-receipts env row message (some user) a =
    if-holds (Returns (KeepsReceipts a)) (is_stranger user message) refl
      (kept (submit_task_reply env row message a) (submit_task_reply-Keeps env row message a))
  where
    kept : (call : Result Handled) → KeepsResult row a call → Returns (KeepsReceipts a) call
    kept (err failure) h = tt
    kept (ok handled) h = ap (λ f. f.receipts) h.0

is_some-map {ℓ} :
    {A : Type ℓ} (f : A → A) (found : Option A) → is_some (Option.map f found) ≡ is_some found
is_some-map f none = refl
is_some-map f (some a) = refl

-- The result is written on a receipt, which stays.
known-finish :
    (c : ℕ) (e : String) (env : InboundEnv) (h : Handled)
    → is_known c e h.db ≡ true
    → is_known c e (finish env h).db ≡ true
unfolding store_result add_audit
known-finish c e env h known =
    let of_id = λ (r : InboundReceipt). r.id == env.receipt_id in
    let values = result_values h.result h.task_id in
    let stays =
      ap is_some (find-update (receipt_of c e) of_id values h.db.receipts (λ r. ground arith))
      ∙ (is_some-map (update_row of_id values) (find_where (receipt_of c e) h.db.receipts)
          ∙ known) in
    audit_accepted-holds
      (λ b. is_known c e (store_result env.receipt_id h.result h.task_id b) ≡ true) h.db stays
      (λ task. stays) h.result h.task_id

insert-known :
    (env : InboundEnv) (row : ImConnection) (message : InboundMessage)
    (found : Option InboundReceipt) (receipt : InboundReceipt) (a : Db)
    → find_where (receipt_of receipt.connection_id receipt.external_message_id) a.receipts ≡ found
    → Returns
        (λ (r : Answer). is_known receipt.connection_id receipt.external_message_id r.db ≡ true)
        (handle_new env row message (insert_receipt found receipt a) a)
unfolding handle_new
insert-known env row message (some existing) receipt a e = ap is_some e
insert-known env row message none receipt a e =
    let received = record a { receipts = receipt ∷ a.receipts } in
    let c = receipt.connection_id in
    let m = receipt.external_message_id in
    let here : is_known c m received ≡ true = rw ((==_iff c c).1 refl, eq_refl m) refl in
    Returns-map _ _ (finish env) (after_receipt env row message row.bound_external_user_id received)
      (λ h kept.
        known-finish c m env h (ap (λ rs. is_some (find_where (receipt_of c m) rs)) kept ∙ here))
      (after_receipt-receipts env row message row.bound_external_user_id received)

handled-known :
    (env : InboundEnv) (row : ImConnection) (message : InboundMessage) (a : Db) {r : Answer}
    → handle_inbound env row message a ≡ ok r
    → is_empty message.external_message_id ≡ false
    → is_known row.id message.external_message_id r.db ≡ true
unfolding handle_inbound record_receipt get_receipt
handled-known env row message a h given =
    let receipt = receipt_for env row message in
    let found = get_receipt a row.id message.external_message_id in
    returned (λ (r : Answer). is_known row.id message.external_message_id r.db ≡ true)
      (handle_new env row message (insert_receipt found receipt a) a)
      (insert-known env row message found receipt a refl) (rw given at h)

-- The database after further messages, on any connection, and after transactions that leave the
-- receipts as they are.
pub data Later (a : Db) : Db → Type 0 where
  at_once : Later a a
  handled :
      {b c : Db} (env : InboundEnv) (row : ImConnection) (m : InboundMessage) (r : Answer)
      → Later a b
      → handle_inbound env row m b ≡ ok r
      → c ≡ r.db
      → Later a c
  transaction : {b c : Db} → Later a b → c.receipts ≡ b.receipts → Later a c

insert-stays :
    (c : ℕ) (e : String) (env : InboundEnv) (row : ImConnection) (m : InboundMessage)
    (found : Option InboundReceipt) (receipt : InboundReceipt) (a : Db)
    → is_known c e a ≡ true
    → Returns
        (λ (r : Answer). is_known c e r.db ≡ true)
        (handle_new env row m (insert_receipt found receipt a) a)
unfolding handle_new
insert-stays c e env row m (some existing) receipt a known = known
insert-stays c e env row m none receipt a known =
    let received = record a { receipts = receipt ∷ a.receipts } in
    let here : is_known c e received ≡ true =
      if-holds (λ (o : Option InboundReceipt). is_some o ≡ true) (receipt_of c e receipt) refl
        known in
    Returns-map _ _ (finish env) (after_receipt env row m row.bound_external_user_id received)
      (λ h kept.
        known-finish c e env h (ap (λ rs. is_some (find_where (receipt_of c e) rs)) kept ∙ here))
      (after_receipt-receipts env row m row.bound_external_user_id received)

handled-stays :
    (c : ℕ) (e : String) (env : InboundEnv) (row : ImConnection) (m : InboundMessage) (a : Db)
    {r : Answer}
    → is_known c e a ≡ true
    → handle_inbound env row m a ≡ ok r
    → is_known c e r.db ≡ true
unfolding handle_inbound record_receipt
handled-stays c e env row m a known h =
    let receipt = receipt_for env row m in
    returned (λ (r : Answer). is_known c e r.db ≡ true) _
      (if-holds (Returns (λ (r : Answer). is_known c e r.db ≡ true))
        (is_empty m.external_message_id) known
        (insert-stays c e env row m
          (get_receipt a receipt.connection_id receipt.external_message_id) receipt a known))
      h

later-known :
    (c : ℕ) (e : String) {a b : Db} → Later a b → is_known c e a ≡ true → is_known c e b ≡ true
later-known c e at_once known = known
later-known c e (handled {b} env row m r before h same) known =
    rw same (handled-stays c e env row m b (later-known c e before known) h)
later-known c e (transaction before same) known = rw same (later-known c e before known)

known-duplicate :
    (env : InboundEnv) (row : ImConnection) (message : InboundMessage)
    (found : Option InboundReceipt) (receipt : InboundReceipt) (a : Db)
    → is_some found ≡ true
    → handle_new env row message (insert_receipt found receipt a) a ≡ ok (answered duplicate a)
unfolding handle_new
known-duplicate env row message none receipt a known = cc
known-duplicate env row message (some existing) receipt a known = refl

-- Once a message with an ID was handled without an exception, every message with that ID on that
-- connection is answered as a duplicate and leaves the database as it is, after any further
-- messages that are handled without an exception and any transactions that leave the receipts as
-- they are.
pub handle_inbound-once :
    (env later : InboundEnv) (row again : ImConnection) (message other : InboundMessage) (a : Db)
    {r : Answer} {b : Db}
    → handle_inbound env row message a ≡ ok r
    → is_empty message.external_message_id ≡ false
    → Later r.db b
    → again.id ≡ row.id
    → other.external_message_id ≡ message.external_message_id
    → handle_inbound later again other b ≡ ok (answered duplicate b)
unfolding handle_inbound record_receipt get_receipt
handle_inbound-once env later row again message other a {r} {b} h given passed same_row
      same_message =
    let known : is_known again.id other.external_message_id b ≡ true =
      rw (same_row, same_message)
        (later-known row.id message.external_message_id passed
          (handled-known env row message a h given)) in
    rw (ap is_empty same_message ∙ given) (
      known-duplicate later again other (get_receipt b again.id other.external_message_id)
        (receipt_for later again other) b known)
