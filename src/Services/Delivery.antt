-- ===== src/Services/Delivery.antt =====
-- app/services/delivery_service.py, `deliver_task` as `create_task` calls it: in a worker thread,
-- where no event loop runs. The connectors and the text of the package are parameters.
use human_llm_gateway.Prelude.{
  ℕ, String, Bool, true, false, Option, none, some, [], ◌∷◌, ◌++◌, if◌then◌else◌,
}
use human_llm_gateway.Domain.Enums.{TaskEventType, ActorType, system}
use human_llm_gateway.Model.Task.{RequestTask}
use human_llm_gateway.Model.Connection.{ImConnection, Platform, webhook, http_poll, websocket}
use human_llm_gateway.Model.Db.{Db}
use human_llm_gateway.Repositories.Outbox.{
  enqueue_outbox, mark_outbox_delivered, mark_outbox_failed,
}

abbrev pub is_outbox_platform : Platform → Bool
is_outbox_platform webhook = true
is_outbox_platform http_poll = true
is_outbox_platform websocket = true
is_outbox_platform _ = false

-- A connector that runs delivers a package and answers with the error code of its exception, if
-- it raised one. `envelope` is the text that `build_envelope` and `to_json` make of a task.
pub record DeliveryEnv : Type 0 where
  pub get_instance : ℕ → Option (String → Option String)
  pub envelope : ImConnection → RequestTask → String
  pub outbox_id : ℕ

pub record DeliveryOutcome : Type 0 where
  pub connection_id : ℕ
  pub platform : Platform
  pub is_delivered : Bool
  pub error_code : Option String
  pub via_outbox : Bool

unfoldable pub add_event : ℕ → ℕ → TaskEventType → ActorType → Option ℕ → Db → Db
add_event now task_id event_type actor_type actor_user_id db = record db {
  events =
      db.events
      ++ record {
        task_id = task_id;
        event_type = event_type;
        actor_type = actor_type;
        actor_user_id = actor_user_id;
        created_at = now;
      }
        ∷ [];
}

-- The outbox row after an attempt, and the event that records it.
after_delivery : ℕ → RequestTask → ImConnection → Option String → Db → DeliveryOutcome × Db
unfolding add_event
after_delivery now task connection (some error_code) db =
    let via_outbox = is_outbox_platform connection.platform in
    let marked =
      if via_outbox then (mark_outbox_failed now connection.id task.id error_code db).1 else db in
    (
      record {
        connection_id = connection.id;
        platform = connection.platform;
        is_delivered = false;
        error_code = some error_code;
        via_outbox = via_outbox;
      },
      add_event now task.id TaskEventType.delivered system none marked,
    )
after_delivery now task connection none db =
    let via_outbox = is_outbox_platform connection.platform in
    let marked =
      if via_outbox then (mark_outbox_delivered now connection.id task.id db).1 else db in
    (
      record {
        connection_id = connection.id;
        platform = connection.platform;
        is_delivered = true;
        error_code = none;
        via_outbox = via_outbox;
      },
      add_event now task.id TaskEventType.delivered system none marked,
    )

send :
    ℕ
    → RequestTask
    → ImConnection
    → String
    → Option (String → Option String)
    → Db
    → DeliveryOutcome × Db
unfolding after_delivery
send now task connection payload none db = (
  record {
    connection_id = connection.id;
    platform = connection.platform;
    is_delivered = false;
    error_code = some "connection_offline";
    via_outbox = is_outbox_platform connection.platform;
  },
  db,
)
send now task connection payload (some connector) db =
    after_delivery now task connection (connector payload) db

unfoldable pub deliver_task :
    DeliveryEnv → ℕ → RequestTask → ImConnection → Db → DeliveryOutcome × Db
unfolding send
deliver_task env now task connection db =
    let payload = env.envelope connection task in
    let queued =
      if is_outbox_platform connection.platform
      then enqueue_outbox now env.outbox_id connection.id task.id payload db
      else db in
    send now task connection payload (env.get_instance connection.id) queued
