-- ===== src/Lib.antt =====
-- hallpass, an authenticated gateway between agents and tools, as a model with proofs.
--
-- A caller presents a bearer token. The core (src/hallpass/core.py) has it verified
-- (src/hallpass/identity.py), counts the call (src/hallpass/ratelimit.py), asks the gate
-- (src/hallpass/gating.py) for the tool, answers a retried call from the result store
-- (src/hallpass/idempotency.py), and otherwise runs the tool's handler in a context that reaches
-- one credential of the vault (src/hallpass/connectors.py, src/hallpass/vault.py). The decisions
-- are recorded (src/hallpass/audit.py). Agents talk to each other over channels with the same
-- principals (src/hallpass/a2a.py).
--
--   Prelude        lists, dictionaries in insertion order, sets of names, sorting, white space; Words,
--                  texts joined and split; Views, a table seen through its rows; Simulation, two
--                  implementations of the same calls
--   Identity       `Principal`; Scopes `_extract_scopes`; Revocation `InMemoryRevocationList`;
--                  Jwks `HttpJwks`; Verifier `TokenVerifier`, with what it proves in Genuine and
--                  Sound, and its cache in Cache
--   Gating         `ToolGate`; Laws
--   RateLimit      `FixedWindowRateLimiter`; Window, one subject; Subjects, the whole limiter
--   Idempotency    `InMemoryIdempotencyStore`, and the laws of a store; Laws
--   Vault          `CredentialVault` over `InMemoryVaultBackend`; Laws; Sqlite
--   Connectors     `UserContext`, and handlers as trees of what it lets them do; Isolation
--   Audit          `AuditEvent`, `InMemoryAuditLog`; Bounded; Sqlite, `SqliteAuditLog`
--   Core           Types, the state of `Hallpass`; Registry, `add_connector`; Requests, `list_tools`,
--                  `search_tools`, `call_tool`, with what they do in Effects, Trail, Replay with
--                  Once, Total and Search
--   A2a            Store, `InMemoryA2AStore`, with Sqlite, `SqliteA2AStore`; Bus, `A2ABus`, with
--                  Pages, Delivery, Access and Posted
--   Revocation     the interface of a source; Sqlite, `SqliteRevocationList`; Cached,
--                  `CachedRevocationList`, the view of a replica (src/hallpass/revocation.py)
--   HumanGate      gates and the in-memory ledger of src/hallpass/humangate.py; Decisions; Sqlite
--   Roles          `InMemoryRoleStore` of src/hallpass/roles.py; Scopes; Sqlite
--   TaskQueue      `InMemoryTaskQueueBackend` of src/hallpass/taskqueue.py; Steps, Records, Lease and
--                  Oldest, what its calls do; Sqlite, the SQLite backend, with Untied,
--                  Refines and History
--   Runner         `serve_queue` of src/hallpass/runner.py; Drain
--   Routing        `Router` of src/hallpass/orchestrator.py; Capable
--   Delegation     src/hallpass/delegation.py; Narrowing; Sqlite, with Refines
--   Approvals      src/hallpass/approvals.py; Signed, Duties; Sqlite, with Refines
--   Seats, Consent src/hallpass/seats.py, src/hallpass/consent.py; Sqlite, with Refines
--   Direct         src/hallpass/dm.py; Private
--   Rest           src/hallpass/rest.py: Retry with Schedule, Breaker with Outages, Auth, Service, and
--                  Handler with Renewal, Stale and Limit
--   Guard          src/hallpass/guard.py; Preview
--   Tests          runs on fixed inputs
--
-- A method of an object is a function from its state to its result and the next state; an exception
-- is a value of a result type. Every reading of a clock is an argument, a natural number, and a
-- difference that the code compares is written as a sum; so the `exp` of a token is a whole number,
-- while the code would keep its fraction. A frozen set is a list of which only membership is read.
-- A lock makes a method one step, so that interleaved calls are sequences of steps.
--
-- A SQLite table is a dictionary from the primary key to the row, in the order of insertion, and
-- each statement is a function on it: an upsert is `put`, a WHERE is a filter, an ORDER BY a stable
-- sort. Which of several oldest rows the task queue's claim gets, where their times are equal, is
-- left open. The transactions of one connection run one after another.
--
-- Parameters: the JWT library, the source of the key documents, Fernet, the ranker of a search, the
-- text clean-up of delivered messages, the digest of a direct channel, JSON, `str.format`,
-- `str.upper` and the class of word characters, the handlers of tasks, which may act on their
-- queue, the token refresher, and the downstream services. What is assumed of them stands at the
-- theorem: that a decoded token has not expired, that Fernet decrypts what it encrypted, that JSON
-- brings a dictionary back, that a result store keeps what it is given for its time to live and no
-- key disturbs another, and that ORDER BY with LIMIT 1 gives a row with the least key. A client of
-- a service answers a body, a `ConnectorError`, or any other exception.
--
-- The loops with no bound in their arguments run on fuel. For `catch_up` one step more than the
-- channel has messages is enough, for the retries more steps than `max_retries`, and for a drain of
-- the task queue one pass more than there are tasks without a result; the theorems on them say so.
--
-- Not modelled: the Postgres and Redis backends, which are commands to external servers; the SQLite
-- store of the channel policies; the facade `TaskQueue`; the transports, the command line and the
-- dashboard, which are I/O; HttpxClient, which is calls of the httpx package; the declarations of
-- the catalog; the ranking of a search, over floating-point scores; and provisioning, the token
-- endpoints, the operator commands, the text clean-up and the FLEX codec, with the orchestrator and
-- the worker that speak it.
pub mod Prelude
pub mod Identity
pub mod Gating
pub mod RateLimit
pub mod Idempotency
pub mod Vault
pub mod Connectors
pub mod Audit
pub mod Core
pub mod A2a
pub mod Revocation
pub mod HumanGate
pub mod Roles
pub mod TaskQueue
pub mod Guard
pub mod Delegation
pub mod Seats
pub mod Approvals
pub mod Consent
pub mod Runner
pub mod Direct
pub mod Routing
pub mod Rest
pub mod Tests
