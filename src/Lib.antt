-- ===== src/Lib.antt =====
-- Verification library of claude-agent-api: the session core, the agent's bookkeeping and the
-- OpenAI Assistants services.
--
-- The program serves conversations with Claude over HTTP. Its services keep sessions, threads,
-- messages and runs in a Redis cache, with PostgreSQL as the source of truth for sessions, and
-- execute runs through the Claude SDK. This library models these services, method by method.
--
-- Parts, and the code under apps/api that they model:
--   Common, Exec: shared notation, lists, sorting, integers; Python's exceptions as values, and
--     methods as state passing over a world `W` (Exec/Ensures: postconditions of such methods).
--   Json, Payload: `JsonValue` of types.py, and the parsers that the services share.
--   Runtime: Python's standard library (datetime, UUID, hashlib, conversions), as arguments.
--   Interfaces, Stores: protocols.py, the cache and the repositories as records of operations,
--     and their documented behaviour as records of laws, which the theorems take as hypotheses.
--   Sessions: Model (services/session_models.py, utils/session_utils.py, utils/crypto.py),
--     CacheManager (services/session_cache_manager.py), Locks (services/session_lock_manager.py),
--     Service, Changes and Listing (services/session.py, services/session_metadata_manager.py).
--     Ownership, Creation and the child modules hold the proofs.
--   Runs: Model, Service and Listing (services/assistants/run_service.py), Executor
--     (services/assistants/run_executor.py). Stored, Transitions, Paging, Executor/Settling
--     and Executor/Outcomes hold the proofs.
--   Assistants: Model, Service and Listing (services/assistants/assistant_service.py). RoundTrip,
--     Ownership, Stored and Paging hold the proofs.
--   Checkpoints: Service (services/checkpoint.py); Keys and Stored hold the proofs.
--   Agent (services/agent): Context (types.py, and what is read of schemas/responses.py and of the
--     SDK's messages), Tracker (session_tracker.py, session_control.py), Blocks
--     (schemas/messages.py and the extraction in handlers.py), Handlers, Partial and Dispatch
--     (handlers.py, and the loop of query_executor.py), Aggregator
--     (single_query_aggregator.py), Runner (single_query_runner.py), Checkpointing
--     (checkpoint_manager.py, file_modification_tracker.py). Signals, Tracking, Keeping, Usage,
--     Aggregation, SingleQuery and Turns hold the proofs.
--   Resources: Index (what the next three share), Agents (services/agents.py), Projects
--     (services/projects.py), ToolPresets (services/tool_presets.py). Shelves, AgentLife and Names
--     hold the proofs.
--   Mcp: Validator (services/mcp_config_validator.py and what it calls of schemas/validators.py),
--     Loader (services/mcp_config_loader.py). Redaction, Merging and Substitution hold the
--     proofs; Templates describes the texts with placeholders that Substitution is about.
--   Messages (services/assistants/message_service.py), Threads
--     (services/assistants/thread_service.py).
--   OpenAi: Requests (schemas/openai/requests.py and schemas/responses.py, as far as they are
--     read), Models, Errors, Tools (the files of the same names in services/openai),
--     RequestTranslator and ResponseTranslator (services/openai/translator.py), Streaming
--     (services/openai/streaming.py): a list of events to the list of chunks. Models has the test of
--     model names too (schemas/validators.py), and RequestTranslator the tests of
--     schemas/requests/query.py on the fields that it sets.
--   Redis: Client (the Redis client and the codecs, as arguments), Adapter and Scan
--     (adapters/cache.py), Store (what the adapter promises, on keys with texts, payloads, sets and
--     bytes that are no UTF-8), Refines (the adapter does), Locks (clients that share one lock, as
--     a relation between states). The laws of Stores, which the services' theorems use, are those
--     of a cache in which the keys of payloads have nothing but payloads and reads do not raise.
--   Witnesses: an in-memory cache and database, two small forms of Redis and a text form of
--     dicts that satisfy the laws, and runs in them.
--
-- A method of a Python class is the function of the same name without its leading underscore;
-- `delete_cached` is `SessionCacheManager.delete_session`, and `submit_outputs` is
-- `RunExecutor.submit_tool_outputs`. A service's attributes are the fields of its record. The
-- threads call the session service, the executor calls the run service, and all call the cache.
--
-- Bounds: two loops are unbounded. The one that waits for a lock runs on a number of rounds; one
-- more than the timeout, in microseconds, is enough when the clock goes on while it sleeps. The one
-- that scans keys runs on a number of rounds above the calls that SCAN needs to come to an end.
--
-- Conventions: a datetime is its UTC instant in microseconds, a float its 64-bit pattern, a UUID
-- its text. Ids that the code draws and the current time are arguments. Logging is left out. What
-- the cache gives as JSON is a dict, as its annotation says.
--
-- Not modelled: the HTTP layer and the rest of its schemas, the Claude SDK calls and what wires
-- them to streams (the rest of the executor and the orchestrator of services/agent, the streams of
-- runs), the adapters of SQL and memory, the rest of MCP, webhooks, skills, commands and memories.
-- The modelled parts see the adapters, the SDK and the stream of a query through the records and
-- data above, and do not use the others.
pub mod Common
pub mod Json
pub mod Exec
pub mod Runtime
pub mod Interfaces
pub mod Stores
pub mod Payload
pub mod Sessions
pub mod Runs
pub mod Mcp
pub mod Messages
pub mod Threads
pub mod Assistants
pub mod Checkpoints
pub mod Agent
pub mod Resources
pub mod OpenAi
pub mod Redis
pub mod Witnesses
