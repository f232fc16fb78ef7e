-- ===== src/Repositories/Receipts.antt =====
-- app/repositories/connections.py: the receipts of inbound messages, and the binding of a connection
-- to a user of its platform. The primary key of a new row is an argument.
use text.Mathlib.Text.{◌==◌ as str_eq}
use human_llm_gateway.Prelude.{
  ℕ, String, Bool, ◌&&◌, Option, none, some, ◌∷◌, take_chars, ◌==◌, ltb,
}
use human_llm_gateway.Domain.Enums.{InboundResult}
use human_llm_gateway.Model.Connection.{ImConnection, InboundReceipt}
use human_llm_gateway.Model.Db.{Db}
use human_llm_gateway.Table.Rows.{count_where, update_where, find_where}

abbrev pub receipt_of : ℕ → String → InboundReceipt → Bool
receipt_of connection_id external_message_id r =
    r.connection_id == connection_id && str_eq r.external_message_id external_message_id

unfoldable pub get_receipt : Db → ℕ → String → Option InboundReceipt
get_receipt db connection_id external_message_id =
    find_where (receipt_of connection_id external_message_id) db.receipts

abbrev pub new_receipt : ℕ → ℕ → ℕ → String → String → String → InboundResult → InboundReceipt
new_receipt now new_id connection_id external_message_id fingerprint hash result = record {
  id = new_id;
  connection_id = connection_id;
  external_message_id = external_message_id;
  sender_fingerprint = take_chars 255 fingerprint;
  task_id = none;
  payload_hash = take_chars 64 hash;
  result_code = result;
  created_at = now;
}

abbrev pub insert_receipt :
    Option InboundReceipt → InboundReceipt → Db → Option (InboundReceipt × Db)
insert_receipt (some existing) row db = none
insert_receipt none row db = some (row, record db { receipts = row ∷ db.receipts })

-- `None` for a message that has a receipt: the insertion of a row whose key is taken is refused
-- by the unique constraint as well, with the same answer.
unfoldable pub record_receipt : InboundReceipt → Db → Option (InboundReceipt × Db)
record_receipt row db =
    insert_receipt (get_receipt db row.connection_id row.external_message_id) row db

unfoldable pub count_inbound_receipts : Db → ℕ → ℕ
count_inbound_receipts db connection_id =
    count_where (λ r. r.connection_id == connection_id) db.receipts

unfoldable pub count_inbound_receipts_since : Db → ℕ → ℕ → ℕ
count_inbound_receipts_since db connection_id since =
    count_where (λ r. r.connection_id == connection_id && ltb since r.created_at) db.receipts

abbrev pub bound_values : ℕ → String → ImConnection → ImConnection
bound_values now external_user_id c = record c {
  bound_external_user_id = some external_user_id;
  binding_code_hash = none;
  binding_code_expires_at = none;
  updated_at = now;
}

unfoldable pub bind_external_user : ℕ → ℕ → String → Db → Db
bind_external_user now connection_id external_user_id db = record db {
  connections =
      update_where (λ c. c.id == connection_id) (bound_values now external_user_id) db.connections;
}

-- The receipt row that the handler holds, as it writes it at the end.
abbrev pub result_values : InboundResult → Option ℕ → InboundReceipt → InboundReceipt
result_values result task_id r = record r { result_code = result; task_id = task_id }

unfoldable pub store_result : ℕ → InboundResult → Option ℕ → Db → Db
store_result receipt_id result task_id db = record db {
  receipts = update_where (λ r. r.id == receipt_id) (result_values result task_id) db.receipts;
}
