-- ===== src/Lib.antt =====
-- Deep Data Agent: the services that guard an agent run.
--
-- A request is answered by `AgentService.ainvoke` (data_agent/services/agent_service.py). Its run holds
-- a concurrency lease (data_agent/services/agent_lease.py) and a budget of model requests and tool
-- calls (data_agent/services/agent_budget.py), and it reads and writes the answer cache
-- (data_agent/services/cache_service.py). HTTP requests are counted by a fixed-window limiter
-- (data_agent/services/rate_limit_service.py). The limiter, the leases and the answer cache share one
-- way to lose and to regain Redis (data_agent/services/redis_recovery.py). Users sign in with
-- access tokens (data_agent/services/auth_service.py) and keep chat sessions and files, over which the
-- agent computes statistics; roles say what they may do.
--
-- Files:
-- - Prelude: Boolean tests, list functions and integers over the native numbers.
-- - Budget: `RunBudget`, one function per method; `step` and `run` are the atomic steps of the
--   branches of a run in any order. Budget/Scope: `hold_run_budget`, `observe_answer_cache` and the
--   middleware, over a world with every ledger, the context variables and the observations.
--   Budget/Bounds, Budget/Evidence and Budget/Scope/Laws hold the proofs.
-- - Recovery: `RedisRecoveryState`. `enter` and `settle` are the two critical sections of
--   `get_client`; Recovery/Flight interleaves those of several threads as a step relation.
--   Recovery/Clock is the arithmetic of floats as a parameter, with two laws of IEEE comparison.
--   Recovery/Async: `AsyncRedisRecoveryState`, whose probe lock is one per event loop;
--   Recovery/Async/Loops interleaves the loops, Recovery/Async/Agreement compares it with Recovery.
-- - Gate: what the services ask of the reconnect state, as a record of operations and laws.
--   Gate/Redis fills it from Recovery, Gate/Async from Recovery/Async.
-- - RateLimit: `RateLimitService.check` over a gate. RateLimit/Window is the count of a window,
--   RateLimit/Failure what a decision rests on,
--   RateLimit/Failure/Commands what the commands to Redis decide.
--   RateLimit/Middleware: `RateLimitMiddleware`
--   (data_agent/observability/rate_limit_middleware.py) over it, with Middleware/Hops for its proofs.
-- - Auth: access tokens (data_agent/services/auth_service.py). Auth/Accounts: registration and login
--   (data_agent/routes/auth.py); Auth/Threads: data_agent/security/langgraph_auth.py. Auth/Laws and
--   Auth/Registration hold the proofs.
-- - Lease: the Lua scripts `_ACQUIRE_SCRIPT` and `_RELEASE_SCRIPT` over the commands of Lease/Sorted.
--   Lease/Table is the abstract table of leases, Lease/Refines the refinement, Lease/Limits the
--   servers that share one Redis, in any order of scripts and of time.
-- - Lease/Manager: `AgentLeaseManager` over the gate; Lease/Manager/Waiting is the loop of `acquire`, a
--   list of turns, and Lease/Manager/Holding is `hold` with the two context variables;
--   Holding/Blocks carries what holds of a block over to `hold`.
-- - Upload: `FileUploadBodyLimitMiddleware` (data_agent/security/upload_limit_middleware.py).
-- - Access: `has_permission` and `ensure_permission` (data_agent/services/authorization_service.py);
--   Access/Admin: `AdminService` (data_agent/services/admin_service.py) over the users table.
-- - Sessions: `SessionService` (data_agent/services/session_service.py) over the tables of sessions
--   and messages.
-- - Cache: `CacheService` (data_agent/services/cache_service.py) over the gate.
-- - Agent: the results and failures of a request (data_agent/services/agent_service.py).
--   Agent/Request: `AgentService.ainvoke`, over Lease/Manager/Holding, Cache and Budget/Scope; the graph
--   is an argument. Agent/Config: `_bounded_run_config` and `_prepare_run_config` over dicts
--   (Agent/Config/Entries); Agent/Config/Owner is about the subject of a run.
--   Agent/Stream: the chunk loop of `ResourceBoundedAgentGraph.stream`. Agent/Channel: the queue between
--   the two tasks of `astream`, as a step relation.
-- - Files: the managed files (data_agent/services/managed_file_service.py). Files/Prepare: the checks of
--   an upload, with Checks and Laws for what they find.
--   Files/Storage: `_write_file`, `_record_path` and `_read_bytes` over a file system;
--   Files/Storage/Rollback is about a batch on disk. Files/Service: `ManagedFileService` over the
--   storage and a database session, with Batch, Quota and Laws for its proofs.
-- - Statistics: the sum of one column (data_agent/services/file_statistics.py). Statistics/Table reads the
--   table, Statistics/Sums is the loop over its rows, Statistics/Report the result, and Statistics/Tool
--   `file_statistics` with the chat tool (data_agent/tools/file_statistics.py). Sums/Loop compares
--   the loop with a fold, Statistics/Exact and Extremes are about its numbers, Statistics/Column about
--   a whole result and Statistics/Source about where it comes from.
-- - Readiness: the checks of data_agent/readiness.py; Readiness/Laws is about the health check.
--
-- Parameters. Redis commands, the file system, database sessions, Python's functions on text, the
-- parsers of CSV and JSON, the modules decimal, jose and passlib, the clock, the random source,
-- SHA-256, the agent graph and the bodies that the code calls back are arguments. What the theorems
-- need of them stands in records of laws, each as its documentation gives it; a test shows for each
-- that it can be met. A script is one atomic step, as Redis runs it. Scores and times of the scripts
-- are natural numbers of milliseconds: Lua's doubles hold them exactly below 2 ^ 53.
--
-- Lists of steps and derivations of step relations have any finite length. No function needs fuel
-- unless its file says so.
--
-- Not modelled: log events, the event schema and the diagnostics report, HTTP wiring, the
-- construction of the agent graph, configuration, scripts, migrations, the other tools of the agent
-- and the front end. They are third-party calls, input and output, or parts on which none of the
-- modelled operations depends.
pub mod Prelude
pub mod Budget
pub mod Recovery
pub mod Gate
pub mod Auth
pub mod RateLimit
pub mod Lease
pub mod Upload
pub mod Access
pub mod Cache
pub mod Agent
pub mod Sessions
pub mod Files
pub mod Statistics
pub mod Readiness
