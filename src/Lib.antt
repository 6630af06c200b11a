-- ===== src/Lib.antt =====
-- SQL-RPA is a service in which users and agents write SQL for a business database; what changes
-- data goes through a review before it runs. This library models the core of backend/.
--
-- Base, Text: shared names, tests and lists; texts as lists of code points with Python's string
-- methods (letters are those of ASCII), and Text/Regex, a backtracking matcher for `re`. A match
-- is tried in the order of `re`, so that the first end that it lists is the match.
-- Safety: backend/db_connector/safety.py, the rule engine that allows, blocks or sends to review.
-- SqlUtils: backend/db_connector/sql_utils.py, identifiers and conditions that users supply.
-- Review: backend/api/db_operations.py. Review has the rows of one review and the helpers on them;
-- Review/Where extracts the WHERE clause; Review/Approve is `approve_review` as a program of steps,
-- each one transaction or one call, which may raise before or after its effect; its longest way has
-- 18 steps, which is the fuel of `approve_review`, and Review/Approve/Outcome proves that it is
-- enough. Review/Manage has `reject_review`, `review_state_action`, `expire_overdue_reviews` and
-- `_repair_committed_execution`. Review/World interleaves them: any number of approvals make their
-- steps, and the other handlers write with a task that they read at some time before, each in one
-- step, also a repair, which has a transaction for each of its writes and may stop after any. The
-- target transaction may raise before its commit or after it. Times, the contents of backups and
-- snapshots, and the texts of replies are left out.
-- Audit: backend/audit.py and `log_operation` of backend/db_connector/backup.py, the hash chain;
-- the digest is a parameter, and other processes may add rows between the attempts.
-- Organization: backend/organization_service.py and backend/organization_context.py. Organization has
-- the tree of units, Members the memberships of users, Scope the units that a request may see; Rows
-- and Members/Remarked say which rows the operations write, and Moves what a move makes of the tree.
-- Departments: the handlers of backend/api/departments.py that change units and memberships, over
-- Organization and the identity of Accounts/Session; a body that does not validate never reaches them.
-- RateLimit: backend/middleware/ratelimit.py, with what Redis answers as a parameter.
-- Login: the login lock of backend/auth.py, with what Redis answers as a parameter.
-- Splitter: backend/rag/splitter.py; the fuel of its loop is the length of the text, which is enough
-- where the windows are longer than their overlap.
-- Policy, Submission: backend/approval_policy.py and `submit_review` of backend/api/db_operations.py,
-- from the key of the request over the rule engine and the policies to the row of the review. The
-- answers of the target database and the rows that others add meanwhile are inputs.
-- Accounts: `update_user`, `change_password` of backend/api/auth.py; Accounts/Tokens has the tokens and
-- Accounts/Session the identity of a request, of backend/auth.py; Accounts/SignIn is `login`, which
-- asks the lock of Login; Accounts/NewUser is `create_user`, which other requests may interrupt before
-- its flush and before its commit. The signature, the JSON, the hash of a password, the normal form of
-- a user name and the encryption of a phone number are parameters.
-- Notifications: backend/notifications.py; the answers of the endpoints are a parameter.
-- Memory: backend/memory/store.py; which rows of the full-text index match a query is a parameter.
-- Breaker: backend/llm/resilience.py, and the retries and the fallback model of
-- backend/llm/openai_impl.py, with the answers of the service as a parameter.
-- Crypto: backend/utils/crypto.py, values encrypted under versions of a key; AES-GCM, SHA-256,
-- base64 and UTF-8 are parameters.
-- Backup: backend/db_connector/backup.py, and Backup/Requests `rollback_operation` of
-- backend/api/db_operations.py. The target database, JSON, zlib and the cipher are parameters; the
-- pieces of a snapshot are cut with the length of its bytes as fuel, which is enough as no piece is
-- empty. A call of the manager is one step: calls that overlap are not modelled. Backup/Restore runs
-- a backup, other writes and a rollback on one database.
-- Agent: backend/agent. Agent/Stream assembles an answer of the model from the chunks of the
-- service (`chat_stream` of backend/llm/openai_impl.py and `_stream_llm_response` of
-- backend/agent/react_loop.py); Agent/Context trims the messages to the budget; Agent/Tools is the
-- registry of backend/agent/tools with validation.py; Agent/Classifier is the call of the model that
-- `llm_classify` may make; Agent/Loop is `run_agent`, which uses them: a run is the events that it
-- sends, with its messages. Its iterations are recursion on their number.
-- The model, the clock, the reading and the writing of JSON and what a tool does are parameters.
--
-- Not modelled: the database drivers, the vector stores and the service of the language model
-- (third-party code), start-up and migrations, the handlers that only query, those of documents, chats,
-- settings, billing and usage, the handlers that repeat an approval, a rejection or a repair for many
-- reviews, and of the agent the tools, the rules of the classifier of intents, the profiles of users and the
-- texts of its prompts.
mod Base
pub mod Text
pub mod SqlUtils
pub mod Crypto
pub mod Departments
pub mod Backup
pub mod Agent
pub mod Safety
pub mod Login
pub mod Accounts
pub mod Splitter
pub mod Organization
pub mod Audit
pub mod Policy
pub mod Submission
pub mod Review
pub mod Notifications
pub mod Memory
pub mod RateLimit
pub mod Breaker
