-- ===== src/Repositories/Outbox.antt =====
-- app/repositories/connections.py: the outbox of the platforms that poll for their packages.
use human_llm_gateway.Prelude.{
  ℕ, ◌+◌, String, Bool, true, false, ◌&&◌, ◌||◌, Option, none, some, List, [], ◌∷◌, ◌++◌, take,
  take_chars, ◌==◌, ltb, is_none,
}
use human_llm_gateway.Domain.Enums.{OutboxDeliveryState, pending, acked, is_pending}
use human_llm_gateway.Model.Connection.{ConnectorOutbox}
use human_llm_gateway.Model.Db.{Db}
use human_llm_gateway.Table.Rows.{
  count_where, update_where, select_where, delete_where, find_where, order_by,
}

abbrev pub row_of : ℕ → ℕ → ConnectorOutbox → Bool
row_of connection_id task_id o = o.connection_id == connection_id && o.task_id == task_id

abbrev pub new_outbox_row : ℕ → ℕ → ℕ → ℕ → String → ConnectorOutbox
new_outbox_row now new_id connection_id task_id payload = record {
  id = new_id;
  connection_id = connection_id;
  task_id = task_id;
  payload_json = payload;
  delivery_state = pending;
  attempt_count = 0;
  available_at = now;
  acked_at = none;
  last_error_code = none;
  updated_at = now;
}

-- The row that is there, or a new pending one.
unfoldable pub enqueue : Option ConnectorOutbox → ConnectorOutbox → Db → Db
enqueue (some existing) row db = db
enqueue none row db = record db { outbox = db.outbox ++ row ∷ [] }

unfoldable pub enqueue_outbox : ℕ → ℕ → ℕ → ℕ → String → Db → Db
unfolding enqueue
enqueue_outbox now new_id connection_id task_id payload db =
    enqueue (find_where (row_of connection_id task_id) db.outbox)
      (new_outbox_row now new_id connection_id task_id payload) db

abbrev pub pending_row_of : ℕ → ℕ → ConnectorOutbox → Bool
pending_row_of connection_id task_id o =
    row_of connection_id task_id o && is_pending o.delivery_state

unfoldable pub mark_outbox_delivered : ℕ → ℕ → ℕ → Db → Bool × Db
mark_outbox_delivered now connection_id task_id db = (
  count_where (pending_row_of connection_id task_id) db.outbox == 1,
  record db {
    outbox =
        update_where (pending_row_of connection_id task_id)
          (λ o. record o { delivery_state = OutboxDeliveryState.delivered; updated_at = now })
          db.outbox;
  },
)

unfoldable pub mark_outbox_failed : ℕ → ℕ → ℕ → String → Db → Bool × Db
mark_outbox_failed now connection_id task_id error_code db = (
  count_where (pending_row_of connection_id task_id) db.outbox == 1,
  record db {
    outbox =
        update_where (pending_row_of connection_id task_id)
          (λ o. record o {
            delivery_state = pending;
            attempt_count = o.attempt_count + 1;
            last_error_code = some (take_chars 64 error_code);
            updated_at = now;
          })
          db.outbox;
  },
)

abbrev is_open : OutboxDeliveryState → Bool
is_open pending = true
is_open OutboxDeliveryState.delivered = true
is_open _ = false

abbrev pub claimable : ℕ → ℕ → ConnectorOutbox → Bool
claimable connection_id after_cursor o =
    o.connection_id == connection_id && (ltb after_cursor o.id && is_open o.delivery_state)

abbrev id_in : ℕ → List ConnectorOutbox → Bool
id_in i [] = false
id_in i (r ∷ rest) = i == r.id || id_in i rest

unfoldable pub claim_outbox_batch : ℕ → ℕ → ℕ → ℕ → Db → List ConnectorOutbox × Db
claim_outbox_batch now connection_id after_cursor limit db =
    let rows =
      take limit
        (order_by (λ o. o.id) (select_where (claimable connection_id after_cursor) db.outbox)) in
    (
      rows,
      record db {
        outbox =
            update_where
              (λ o.
                claimable connection_id after_cursor o
                && (is_pending o.delivery_state && id_in o.id rows))
              (λ o. record o { delivery_state = OutboxDeliveryState.delivered; updated_at = now })
              db.outbox;
      },
    )

abbrev pub ack_condition : ℕ → ℕ → ConnectorOutbox → Bool
ack_condition connection_id task_id o = row_of connection_id task_id o && is_none o.acked_at

unfoldable pub ack_outbox : ℕ → ℕ → ℕ → Db → Bool × Db
ack_outbox now connection_id task_id db = (
  count_where (ack_condition connection_id task_id) db.outbox == 1,
  record db {
    outbox =
        update_where (ack_condition connection_id task_id)
          (λ o. record o { delivery_state = acked; acked_at = some now; updated_at = now })
          db.outbox;
  },
)

-- The packages and the receipts of a connection that is to be deleted.
unfoldable pub delete_related_rows : ℕ → Db → Db
delete_related_rows connection_id db = record db {
  outbox = delete_where (λ o. o.connection_id == connection_id) db.outbox;
  receipts = delete_where (λ r. r.connection_id == connection_id) db.receipts;
}

unfoldable pub count_pending_outbox : Db → ℕ → ℕ
count_pending_outbox db connection_id =
    count_where (λ o. o.connection_id == connection_id && is_open o.delivery_state) db.outbox
