-- ===== src/Examples/Packages.antt =====
-- A failed delivery that is reported after the package was acknowledged.
use human_llm_gateway.Prelude.{none, some, [], ◌∷◌}
use human_llm_gateway.Domain.Enums.{acked}
use human_llm_gateway.Model.Connection.{ConnectorOutbox}
use human_llm_gateway.Model.Db.{Db}
use human_llm_gateway.Examples.Rows.{db}

abbrev pub acked_package : ConnectorOutbox
acked_package = record {
  id = 4;
  connection_id = 2;
  task_id = 1;
  payload_json = "{}";
  delivery_state = acked;
  attempt_count = 1;
  available_at = 0;
  acked_at = some 6;
  last_error_code = none;
  updated_at = 6;
}

abbrev pub stored : Db
stored = record db { outbox = acked_package ∷ [] }
