-- ===== src/Lib.antt =====
-- A verification library for SAFA/AMA, the gateway that authorizes what autonomous agents may do.
--
-- The program has a library (safa-core) and a daemon (safa-daemon). A request enters at
-- `handle_action`, which names its agent, checks its signature, its rate limit and its idempotency key,
-- and hands it to `process_action`. The pipeline checks the request, turns it into a canonical action,
-- reserves capacity at the agent's authorizer, lets an actuator carry the action out and writes an audit
-- entry. The daemon then stores a proof record and commits the response under the idempotency key.
--
-- Which file models which part:
--   Errors, Schema, Canonical, Mapper   safa-core/src/errors.rs, schema.rs, canonical.rs, mapper.rs
--   Config, Config/Raw, /Agent,         safa-core/src/config.rs: the validated types, the parsed files, an
--   /AgentSet, /Load                    agent, the agents, and `AmaConfig::load`
--   Newtypes, Newtypes/Url, /Path       safa-core/src/newtypes.rs, a function for each `new`
--   Slime, Slime/Race, Slime/Registry   safa-core/src/slime.rs: `P0Authorizer`, its `try_reserve` split at
--                                       its atomic accesses, and `AgentRegistry`
--   Idempotency, Idempotency/Race       safa-core/src/idempotency.rs, call by call, and split at the parts
--                                       that are atomic
--   Audit, Identity, Manifest           safa-core/src/audit.rs, identity.rs, manifest.rs
--   Actuator/File, /Http, /Shell        safa-core/src/actuator/file.rs, http.rs and shell.rs;
--                                       File/Cleanup is `cleanup_orphan_temps`
--   Pipeline, Pipeline/Canonicalize,    safa-core/src/pipeline.rs: `actuate`, `canonicalize` and
--   Pipeline/Process                    `process_action`
--   Pipeline/Outside                    the actuators as `actuate` calls them
--   Server, Server/RateLimit, /Handler, safa-daemon/src/server.rs: `AppState`, `check_rate_limit`,
--   /Views                              `handle_action` and the handlers that only read
--   Server/Threads                      `handle_action` as any number of threads run it, split at its accesses
--                                       of the idempotency cache
--   Server/Sound                        the daemon answering any requests, one after the other
--   Prelude                             shared names: maps, texts, numbers
--   Tests                               concrete inputs for the theorems
-- The other files hold what is proved of the file or folder above them.
--
-- State is passed on: a method that changes its receiver returns the new one. A fallible function returns
-- `Result`. An instant is a number of nanoseconds, and each reading of a clock and each random id is an
-- argument. A map is a list of entries in which a key stands once. Code outside the repository is a
-- parameter: the crates uuid, serde_json, toml, sha2, hmac, hex and reqwest, the Unicode tables, the file
-- system, processes and their signals, and the order of a HashMap.
--
-- Bounds: the `u64` counters of the rate limiter and of the domains wrap as written; the capacity uses
-- `checked_add` and cannot. The compare-exchange loop of `try_reserve` takes a list of flags, one for each
-- round, that say whether the exchange fails spuriously: the loop ends with the first round that does
-- not. The walk of the clean-up takes fuel: one more than the depth of the directories is enough, and
-- there is such a depth unless symbolic links form a cycle.
--
-- One step stands for more than one lock in two places: `retain` and `len` of the DashMap lock one shard after
-- the other and are each one step in Idempotency/Race, and a call of the file system is one step. What is assumed
-- of the file system in Actuator/File/Atomic is for paths that are no links to each other. In the pipeline of
-- the daemon `try_reserve` is the atomic reservation, to which Slime/Reserve shows the transcribed loop equal.
--
-- The pipeline takes its actuators as an interface (`Pipeline.Actuators`), which Pipeline/Outside fills
-- with the models of the three.
--
-- Not modelled: the router with its layers, the start-up and the shutdown; the demonstration under examples/.
-- Server/Handler runs one request at a time on the whole state. What threads that run at once do to each
-- other is modelled for the authorizer (Slime/Race), for the cache (Idempotency/Race) and for the handler
-- as far as it concerns the cache (Server/Threads); the pipeline is one phase of a thread there. The races
-- for the other shared state are left out: the rate limiter and the proof store are under locks, and the
-- counters of the domains are atomic.
-- The deadline of 30 seconds, at which the server drops a handler, is not modelled: the key of a dropped
-- request stays in flight until its time to live is over, as docs/p1/SAFA_TIMEOUTS.md says.
pub mod Prelude
pub mod Errors
pub mod Schema
pub mod Config
pub mod Newtypes
pub mod Slime
pub mod Idempotency
pub mod Canonical
pub mod Mapper
pub mod Audit
pub mod Identity
pub mod Manifest
pub mod Actuator
pub mod Pipeline
pub mod Server
pub mod Tests
