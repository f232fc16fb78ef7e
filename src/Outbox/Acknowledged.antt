-- ===== src/Outbox/Acknowledged.antt =====
-- What the calls of app/repositories/connections.py do to an acknowledged package. The service
-- app/services/outbound_service.py and the data retention write the outbox by statements of their own,
-- which are not calls of it.
use mathlib.Core.Option
use human_llm_gateway.Prelude.{ℕ, ◌≡◌, String, Bool, false, Option, ◌==◌, is_none}
use human_llm_gateway.Domain.Enums.{acked}
use human_llm_gateway.Model.Connection.{ConnectorOutbox}
use human_llm_gateway.Model.Db.{Db}
use human_llm_gateway.Table.Rows.{find_where}
use human_llm_gateway.Repositories.Outbox.{
  enqueue_outbox, mark_outbox_delivered, mark_outbox_failed, claim_outbox_batch, ack_outbox,
  delete_related_rows,
}

-- The calls of the connection repository that write the outbox.
pub data OutboxStep (a b : Db) : Type 0 where
  enqueued :
      (now new_id connection_id task_id : ℕ) (payload : String)
      → b ≡ enqueue_outbox now new_id connection_id task_id payload a
      → OutboxStep a b
  marked_delivered :
      (now connection_id task_id : ℕ)
      → b ≡ (mark_outbox_delivered now connection_id task_id a).1
      → OutboxStep a b
  marked_failed :
      (now connection_id task_id : ℕ) (error_code : String)
      → b ≡ (mark_outbox_failed now connection_id task_id error_code a).1
      → OutboxStep a b
  claimed :
      (now connection_id after_cursor limit : ℕ)
      → b ≡ (claim_outbox_batch now connection_id after_cursor limit a).1
      → OutboxStep a b
  acknowledged :
      (now connection_id task_id : ℕ)
      → b ≡ (ack_outbox now connection_id task_id a).1
      → OutboxStep a b
  deleted : (connection_id : ℕ) → b ≡ delete_related_rows connection_id a → OutboxStep a b

pub record IsAcked (o : ConnectorOutbox) : Type 0 where
  pub state : o.delivery_state ≡ acked
  pub time : is_none o.acked_at ≡ false

abbrev pub outbox_has_id : ℕ → ConnectorOutbox → Bool
outbox_has_id i o = o.id == i

-- The stored package with the key `i`.
abbrev pub stored_package : Db → ℕ → Option ConnectorOutbox
stored_package db i = find_where (outbox_has_id i) db.outbox

abbrev pub of_connection : ℕ → ConnectorOutbox → Bool
of_connection connection_id o = o.connection_id == connection_id
