-- ===== src/Examples/Messages.antt =====
-- A connection that is bound to a user of its platform, and messages that come in.
use human_llm_gateway.Prelude.{
  ◌≡◌, ◌⊎◌, ◌≢◌, arith, strip, refl, inl, true, false, String, none, some, [],
}
use human_llm_gateway.Prelude.Text.{is_space_code}
use human_llm_gateway.Domain.Enums.{online, duplicate, accepted, pending}
use human_llm_gateway.Model.Connection.{ImConnection, webhook}
use human_llm_gateway.Model.Db.{Db}
use human_llm_gateway.Result.{Result, ok}
use human_llm_gateway.Repositories.Tasks
use human_llm_gateway.Repositories.Tasks.{first_reply_wins}
use human_llm_gateway.Repositories.Receipts.{record_receipt, get_receipt, store_result}
use human_llm_gateway.Repositories.Outbox.{row_of, ack_outbox}
use human_llm_gateway.Table.Rows.{find_where}
use human_llm_gateway.Outbox.Resets.{enqueue_outbound_payload-unacked}
use human_llm_gateway.Commands.Strips.{has_space}
use human_llm_gateway.Commands.Syntax.{parse_command}
use human_llm_gateway.Services.Workbench.{validate_reply_draft, catalog_for_task}
use human_llm_gateway.Services.Workbench.Edits.{assert_tool_call_warning_acknowledged}
use human_llm_gateway.CallerTools.Validation.{validate_full}
use human_llm_gateway.CallerTools.Policy.{build_caller_tool_catalog}
use human_llm_gateway.Services.Inbound.{
  InboundEnv, InboundMessage, Handled, unhandled_with, add_audit,
}
use human_llm_gateway.Services.Delivery.{add_event}
use human_llm_gateway.Services.Inbound.Locate.{
  find_task_by_public_id, sole_waiting_task, explicit_task, locate,
}
use human_llm_gateway.Services.Inbound.Staging.{
  final_kind, after_reply, stage_draft, validate_im_reply, submit_draft, enqueue_outbound_payload,
}
use human_llm_gateway.Services.Inbound.Handler.{
  Answer, answered, plain_reply, act_on, submit_task_reply, after_receipt, handle_new,
  handle_inbound,
}
use human_llm_gateway.Lifecycle.Steps.{Step}
use human_llm_gateway.Messages.Foreign.{outside, handle_inbound-outside}
use human_llm_gateway.Messages.Once
use human_llm_gateway.Messages.Once.{handle_inbound-once}
use human_llm_gateway.Messages.Refinement.{is_reply, handle_inbound-refines}
use human_llm_gateway.Messages.Strangers.{concerns_task, work, handle_inbound-outsider}
use human_llm_gateway.Messages.Replies.{IsReplied, submit_draft-IsReplied, submit_draft-once}
use human_llm_gateway.Messages.Syntaxes.{submit_task_reply-either, submit_task_reply-refused}
use human_llm_gateway.Messages.Staging.{stage_draft-OneActive}
use human_llm_gateway.Workbench.Drafts.{OneActive}
use human_llm_gateway.Examples.Results.{value_or}
use human_llm_gateway.Examples.Rows.{waiting, owner_with, db, db-IsAccounted}
use human_llm_gateway.Examples.Edits.{
  libraries, draft, submitting_ok, answered as web_answer, db-OneActive,
}
use human_llm_gateway.Examples.Packages.{stored, acked_package}

abbrev env : InboundEnv
env = record {
  libraries = libraries;
  now = 60;
  receipt_id = 1;
  draft_id = 9;
  outbox_id = 4;
  online = true;
  validate_calls = λ calls. some [];
  fingerprint = λ row sender. sender;
  payload_hash = λ sender text reply_to. text;
  verify_code = λ code hash. true;
  is_decimal = λ c. true;
  page_json = λ task page. page;
  file_json = λ task fmt. fmt;
}

abbrev connection : ImConnection
connection = record {
  id = 2;
  owner_user_id = 7;
  platform = webhook;
  llm_summary_enabled = false;
  llm_config_id = none;
  desired_running = true;
  state = online;
  bound_external_user_id = some "ann";
  binding_code_hash = none;
  binding_code_expires_at = none;
  last_authenticated_at = none;
  last_health_at = none;
  last_error_code = none;
  last_error_message = none;
  retry_count = 0;
  next_retry_at = none;
  updated_at = 0;
}

abbrev message_of : String → String → InboundMessage
message_of sender text = record {
  external_message_id = "m1";
  sender_external_id = sender;
  text = text;
  binding_code = none;
  reply_to_public_id = none;
}

abbrev handling : String → String → Result Answer
handling sender text = handle_inbound env connection (message_of sender text) db

abbrev handled : String → String → Answer
handled sender text = value_or (answered duplicate db) (handling sender text)

replied : handling "ann" "hello" ≡ ok (handled "ann" "hello")
unfolding handle_inbound handle_new record_receipt get_receipt after_receipt submit_task_reply
    is_space_code act_on locate explicit_task parse_command sole_waiting_task submit_draft
    validate_im_reply validate_reply_draft validate_full catalog_for_task build_caller_tool_catalog
    assert_tool_call_warning_acknowledged first_reply_wins
replied = refl

stranger : handling "bob" "hello" ≡ ok (handled "bob" "hello")
unfolding handle_inbound handle_new record_receipt get_receipt after_receipt
stranger = refl

handle_inbound-outside_example :
    outside connection (handled "ann" "hello").db ≡ outside connection db
handle_inbound-outside_example =
    handle_inbound-outside env connection (message_of "ann" "hello") db replied

-- A stranger's message comes in between.
abbrev between : InboundMessage
between = record (message_of "bob" "hi") { external_message_id = "m2" }

abbrev passing : Result Answer
passing = handle_inbound env connection between (handled "ann" "hello").db

abbrev passed : Answer
passed = value_or (answered duplicate db) passing

passing_ok : passing ≡ ok passed
unfolding handle_inbound handle_new record_receipt get_receipt after_receipt submit_task_reply
    is_space_code act_on locate explicit_task parse_command sole_waiting_task submit_draft
    validate_im_reply validate_reply_draft validate_full catalog_for_task build_caller_tool_catalog
    assert_tool_call_warning_acknowledged first_reply_wins after_reply store_result add_audit
    add_event Tasks.get
passing_ok = refl

handle_inbound-once_example :
    handle_inbound env connection (message_of "ann" "again") passed.db
    ≡ ok (answered duplicate passed.db)
handle_inbound-once_example =
    handle_inbound-once env env connection connection (message_of "ann" "hello")
      (message_of "ann" "again") db replied refl
      (Once.handled env connection between passed Once.at_once passing_ok refl) refl refl

handle_inbound-refines_example :
    ((handled "ann" "hello").db.tasks ≡ db.tasks)
    ⊎ ((c : Db) × (s : Step db c) × (is_reply s ≡ true)
        × ((handled "ann" "hello").db.tasks ≡ c.tasks))
handle_inbound-refines_example =
    handle_inbound-refines env connection (message_of "ann" "hello") db replied

handle_inbound-outsider_example :
    (concerns_task (handled "bob" "hello").result ≡ false)
    × (work (handled "bob" "hello").db ≡ work db)
handle_inbound-outsider_example =
    handle_inbound-outsider env connection (message_of "bob" "hello") db stranger refl

abbrev sending : Result Handled
sending = submit_draft env connection waiting (plain_reply "hello") none db

abbrev sent : Handled
sent = value_or (unhandled_with [] db) sending

sending_ok : sending ≡ ok sent
unfolding submit_draft validate_im_reply validate_reply_draft validate_full catalog_for_task
    build_caller_tool_catalog assert_tool_call_warning_acknowledged
sending_ok = refl

sent_accepted : sent.result ≡ accepted
unfolding submit_draft validate_im_reply validate_reply_draft validate_full catalog_for_task
    build_caller_tool_catalog assert_tool_call_warning_acknowledged first_reply_wins after_reply
sent_accepted = refl

submit_draft-IsReplied_example : IsReplied env waiting (plain_reply "hello") db sent.db
submit_draft-IsReplied_example =
    submit_draft-IsReplied env connection waiting (plain_reply "hello") none db
      db-IsAccounted.unique_tasks sending_ok sent_accepted

abbrev second : Result Handled
second = submit_draft env connection waiting (plain_reply "hello") none web_answer.1

abbrev late : Handled
late = value_or (unhandled_with [] db) second

second_ok : second ≡ ok late
unfolding submit_draft validate_im_reply validate_reply_draft validate_full catalog_for_task
    build_caller_tool_catalog assert_tool_call_warning_acknowledged
second_ok = refl

submit_draft-once_example : late.result ≢ accepted
submit_draft-once_example =
    submit_draft-once libraries 40 env connection waiting waiting (owner_with 1) draft
      (plain_reply "hello") (some 5) none db db-IsAccounted.unique_tasks submitting_ok refl
      second_ok

task_dark : has_space "task" ≡ false
unfolding is_space_code
task_dark = refl

trimmed : strip "fine" ≡ "fine"
unfolding is_space_code
trimmed = refl

found : find_task_by_public_id db connection "task" ≡ some waiting
unfolding find_task_by_public_id
found = refl

absent : find_task_by_public_id db connection "other" ≡ none
unfolding find_task_by_public_id
absent = refl

submit_task_reply-either_example :
    submit_task_reply env connection (message_of "ann" "/ans #task fine") db
    ≡ submit_task_reply env connection (message_of "ann" "#task /ans fine") db
submit_task_reply-either_example =
    submit_task_reply-either env connection (message_of "ann" "/ans #task fine")
      (message_of "ann" "#task /ans fine") "task" "fine" waiting db refl refl refl refl task_dark
      refl trimmed refl found

other_dark : has_space "other" ≡ false
unfolding is_space_code
other_dark = refl

submit_task_reply-refused_example :
    submit_task_reply env connection (message_of "ann" "/ans #other fine") db
    ≡ ok (unhandled_with [] db)
submit_task_reply-refused_example =
    submit_task_reply-refused env connection (message_of "ann" "/ans #other fine") "ans" "other"
      "fine" db (inl refl) refl refl other_dark refl absent

stage_draft-OneActive_example :
    OneActive (stage_draft env connection (some waiting) final_kind "fine" db).db
stage_draft-OneActive_example =
    stage_draft-OneActive env connection (some waiting) final_kind "fine" db db-OneActive

enqueue_outbound_payload-unacked_example :
    let b = enqueue_outbound_payload env connection waiting "page" stored in
    (find_where (row_of 2 1) b.outbox
      ≡ some (record acked_package {
        payload_json = "page";
        delivery_state = pending;
        available_at = 60;
        updated_at = 60;
      }))
    × ((ack_outbox 70 2 1 b).0 ≡ false)
enqueue_outbound_payload-unacked_example =
    enqueue_outbound_payload-unacked env connection waiting "page" stored acked_package 70
      (omega arith) refl refl
