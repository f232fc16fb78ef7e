-- ===== src/Lib.antt =====
-- human-llm-gateway: the service that answers LLM API requests by human replies.
--
-- A caller's request becomes a task, which holds one of the ten slots of the user who owns the API
-- key. The task waits for a human reply, or is forwarded to an upstream model, until a reply is
-- stored, output starts, and the task ends; a timeout, a disconnected caller, the sweeper, a
-- shutdown or the disabling of the user can end it at any time. Each of these is a transaction made
-- of conditional UPDATEs, and they interleave freely. The development models these transactions
-- over an explicit database, and shows what holds whatever their order.
--
-- Files and the code that they model:
--   Prelude          shared tests, lists, Python's text methods, JSON values
--   Domain           app/domain/enums.py, errors.py, tasks.py: states, transitions, errors
--   Result           what a service returns or raises
--   Table            SELECT, UPDATE and DELETE over lists of rows, and their laws
--   Model            app/repositories/models/: the rows, and the database as a record of tables
--   Repositories     app/repositories/: tasks.py (Tasks, Drafts), users.py (Users), sessions.py and
--                    api_keys.py (Accounts, Keys), connections.py (Outbox, Receipts)
--   Services         app/services/: admission.py, inference_service.py (Inference, and History for
--                    the chain of earlier responses), delivery_service.py, user_service.py
--                    (Governance), task_sweeper.py, task_lifecycle.py (Shutdown), task_service.py
--                    (Workbench), connection_service.py and outbound_service.py (Inbound: the
--                    handler of messages from an instant messenger), auth_service.py and
--                    app/repositories/sessions.py (Sessions: logout and the user of a token)
--   Api              app/api/inference.py: the short transactions that end a task
--   CallerTools      app/domain/caller_tools.py (Catalog, Policy, Names) and
--                    app/services/caller_tool_service.py (Validation, Checks)
--   Slots            the accounts of slots: what every operation keeps, and what disabling a user ends
--   Lifecycle        the step relation of all transactions on tasks, reachability, the state machine
--   Workbench        drafts and replies under the calls of task_service.py
--   Commands         app/domain/dsl.py: the commands in a message (Syntax), and what they mean
--   Messages         what a message from an instant messenger can change
--   Throttle         app/core/login_throttle.py: failed logins (Table), and histories of calls
--   Limits           app/api/limits.py: headers and answers (Headers), the loop (Middleware), and the
--                    refusals spelled out (Refusals)
--   Invitations      app/repositories/invitations.py, app/services/invitation_service.py (Codes)
--   Context          the references of a request to earlier responses
--   Outbox           the packages of the connectors that poll
--   Examples         concrete databases and replies for the theorems' hypotheses
--
-- Correspondence. A table is a list of rows, a session method is a function from a database to a
-- database, with what the method returns beside it; a raised error is an `err` without a database,
-- since the transaction is not committed. `rowcount` is the number of rows that meet the condition.
-- A row that the source holds as an object is an argument, so it may be older than the database. A
-- time is a number of microseconds; one reading serves the calls of the clock in a statement. Keys
-- that the database assigns and random texts are arguments. The JSON functions, the JSON Schema
-- validator, digests, the texts of packages, the connectors, the normalization of requests and the
-- resolution of models are parameters. A tool type that is a list or a dict becomes "[]", since only equality with "function"
-- and "custom" matters.
--
-- A message that a handler sends back is a value of a data type; its text is left out.
--
-- Bounds and fuel. The shutdown loop runs on fuel, one for each round; more rounds than active tasks
-- are enough. The eviction of the login throttle has one round for each entry, which is enough. The
-- body size loop ends where the messages end. The chain of earlier responses is followed for twenty steps, as in the source.
--
-- An accounted database has unique keys, releases a slot exactly in the end states, and counts in
-- each user's row the slots that the user's tasks hold, ten at most.
--
-- The receipt of a message goes with its connection, or in the clean-up of old data; a message without
-- a receipt counts as new. The outbox rows are written by the connection repository, by the packages of
-- /page and /file, which make an acknowledged row pending again, and by the clean-up.
--
-- Not modelled: HTTP, streaming and rendering, the translation between protocols, the clients of
-- chat platforms and of upstream models, logging, the payloads of events, password login and encryption, the
-- admin user interface; each is outside the transactions or only reads what they leave.
pub mod Prelude
pub mod Domain
pub mod Result
pub mod CallerTools
pub mod Table
pub mod Model
pub mod Repositories
pub mod Services
pub mod Api
pub mod Slots
pub mod Lifecycle
pub mod Workbench
pub mod Context
pub mod Outbox
pub mod Examples
pub mod Commands
pub mod Messages
pub mod Throttle
pub mod Limits
pub mod Invitations
