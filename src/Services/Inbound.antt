-- ===== src/Services/Inbound.antt =====
-- app/services/connection_service.py: what a message from an instant messenger does. This file has
-- the message, the answers of the libraries, and what a step of the handler returns.
pub mod Locate
pub mod Staging
pub mod Handler
use human_llm_gateway.Prelude.{
  ℕ, String, Bool, true, false, ◌&&◌, not, Option, none, some, List, [], ◌∷◌, ◌++◌, is_empty,
  if◌then◌else◌,
}
use human_llm_gateway.Prelude.Json.{Json, null, bool, num, str, arr, obj, nil, end}
use human_llm_gateway.Domain.Enums.{InboundResult, unhandled}
use human_llm_gateway.Model.Task.{RequestTask}
use human_llm_gateway.Model.Connection.{ImConnection}
use human_llm_gateway.Model.Db.{Db, AuditEntry}
use human_llm_gateway.Services.Workbench.{Libraries, ReplyToolCall}
use Prim.Native.Char.{Char}

-- app/connectors/base.py
pub record InboundMessage : Type 0 where
  pub external_message_id : String
  pub sender_external_id : String
  pub text : String
  pub binding_code : Option String
  pub reply_to_public_id : Option String

-- The messages that are sent back, with the length of the text that was staged.
pub data Feedback : Type 0 where
  staged_reasoning staged_answer : ℕ → Feedback
  reply_sent tools_required bind_welcome no_waiting_task : Feedback

-- The clock, the primary keys of new rows, whether the connector of the connection runs, and the
-- libraries: `validate_calls` is the validation of a list of calls by the reply's model, with `none`
-- for its `ValidationError`; `fingerprint` and `payload_hash` are SHA-256 digests; `verify_code` compares
-- a code with a salted digest; `is_decimal` is the table of decimal digits that `int` reads;
-- `page_json` and `file_json` are the packages that outbound_service writes for `/page` and `/file`.
pub record InboundEnv : Type 0 where
  pub libraries : Libraries
  pub now : ℕ
  pub receipt_id : ℕ
  pub draft_id : ℕ
  pub outbox_id : ℕ
  pub online : Bool
  pub validate_calls : Json → Option (List ReplyToolCall)
  pub fingerprint : ℕ → String → String
  pub payload_hash : String → String → Option String → String
  pub verify_code : String → String → Bool
  pub is_decimal : Char → Bool
  pub page_json : RequestTask → String → String
  pub file_json : RequestTask → String → String

-- What a step returns: its result, the task that it puts on the receipt, what it sends back, and
-- the database.
pub record Handled : Type 0 where
  pub result : InboundResult
  pub task_id : Option ℕ
  pub feedback : List Feedback
  pub db : Db

-- `return InboundResult.UNHANDLED`
abbrev pub unhandled_with : List Feedback → Db → Handled
unhandled_with feedback db = record {
  result = unhandled;
  task_id = none;
  feedback = feedback;
  db = db;
}

-- A text that counts as true: one that is there and not empty.
abbrev pub is_given : Option String → Bool
is_given none = false
is_given (some text) = not (is_empty text)

-- `_send_feedback`: to the bound user, through a connector that runs.
abbrev pub send_feedback : InboundEnv → ImConnection → Feedback → List Feedback
send_feedback env row feedback =
    if is_given row.bound_external_user_id && env.online then feedback ∷ [] else []

-- `AuditRepository.add`, for an action without an actor.
unfoldable pub add_audit : AuditEntry → Db → Db
add_audit entry db = record db { audits = db.audits ++ entry ∷ [] }

-- A value that Python counts as false.
abbrev pub is_falsy : Json → Bool
is_falsy null = true
is_falsy (bool b) = not b
is_falsy (num is_zero text) = is_zero
is_falsy (str s) = is_empty s
is_falsy (arr nil) = true
is_falsy (obj end) = true
is_falsy _ = false
