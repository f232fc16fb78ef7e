-- ===== src/Outbox/Resets.antt =====
-- A package that `/page` or `/file` puts into the outbox row of its task.
use human_llm_gateway.Prelude.{
  ℕ, ◌≤◌, ◌≡◌, refl, ap, ◌∙◌, String, false, none, some, ◌==◌, is_none, arith, ==_iff,
}
use human_llm_gateway.Domain.Enums.{pending}
use human_llm_gateway.Model.Task.{RequestTask}
use human_llm_gateway.Model.Connection.{ImConnection, ConnectorOutbox}
use human_llm_gateway.Model.Db.{Db}
use human_llm_gateway.Table.Rows.{count_where, update_row, find_where}
use human_llm_gateway.Table.Counts.{count-update_same, find-update}
use human_llm_gateway.Table.Keys.{updated_met, lone-unmet}
use mathlib.Core.Option
use human_llm_gateway.Repositories.Outbox.{row_of, ack_condition, ack_outbox}
use human_llm_gateway.Services.Inbound.{InboundEnv}
use human_llm_gateway.Services.Inbound.Staging.{reset_values, enqueue_outbound_payload}

-- Where the outbox has one row for a task and a connection, and it was acknowledged, a package
-- of /page or /file makes that row pending and due at once, with the new package and without an
-- error, and leaves its acknowledgement time and the rest of it; the next acknowledgement of it
-- fails.
pub enqueue_outbound_payload-unacked :
    (env : InboundEnv) (row : ImConnection) (task : RequestTask) (payload : String) (a : Db)
    (o : ConnectorOutbox) (later : ℕ)
    → count_where (row_of row.id task.id) a.outbox ≤ 1
    → find_where (row_of row.id task.id) a.outbox ≡ some o
    → is_none o.acked_at ≡ false
    → let b = enqueue_outbound_payload env row task payload a in
      (find_where (row_of row.id task.id) b.outbox
        ≡ some (record o {
          payload_json = payload;
          delivery_state = pending;
          available_at = env.now;
          last_error_code = none;
          updated_at = env.now;
        }))
      × ((ack_outbox later row.id task.id b).0 ≡ false)
unfolding enqueue_outbound_payload ack_outbox
enqueue_outbound_payload-unacked env row task payload a o later unique found acknowledged =
    let key = row_of row.id task.id in
    let of_id = λ (p : ConnectorOutbox). p.id == o.id in
    let values = reset_values env.now payload in
    rw found (
      find-update key of_id values a.outbox (λ x. ground arith)
          ∙ (ap (Option.map (update_row of_id values)) found
              ∙ ap some (updated_met of_id values o ((==_iff o.id o.id).1 refl))),
      (rw
          (
            count-update_same of_id (ack_condition row.id task.id) values (λ x. ground arith)
                a.outbox,
            lone-unmet (ack_condition row.id task.id) key a.outbox o (λ x h. ground arith) unique
                found (ground arith),
          )
          refl),
    )
