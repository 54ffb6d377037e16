-- ===== src/Lib.antt =====
-- The governance core of guardmcp: what its pipeline decides about a request of an agent, what it asks
-- of a human, what it runs, what it records and what it shows.
--
-- A request (src/guardmcp/core/models/domain.py) is evaluated, may wait for an approval, is executed by
-- a backend, and its result is masked. The modules, with the code that they model:
--   Domain       core/models/domain.py, core/interfaces/errors.py: actions, risks, decisions
--   Json, Dict   the values and dictionaries of Python that the code passes around
--   Cost, Risk   core/interfaces/cost.py, core/risk/engine.py: levels and their escalation
--   Policy       core/policy/models.py: policies, scopes of databases, mask fields
--   Policy.Engine  core/policy/engine.py, core/policy/trace.py, and collection_permitted of
--                core/validation.py: the rules in their order, with their trace
--   Policy.Loader  core/policy/loader.py: the merge of a policy with its base, the chains of extends, the
--                load of policies and the watcher
--   Policy.Explain  core/policy/explain.py: the difference of two policies and the rating of its impact
--   RateLimit    core/ratelimit/limiter.py: the token buckets
--   ResponseLimits  core/response_limits.py: the caps of a response by its size
--   Planning     core/planning (planner.py, ambiguity.py, recommend.py, pipeline.py, models.py)
--   Connections  core/registry/connections.py, and the audited switching and discovery of
--                core/pipeline.py (discover_collections, describe_collection)
--   Masking      core/masking/masker.py: FieldMasker and ResultTransformer, each with its walk
--   Guard        plugins/mongodb/guard.py: operators, stages, collections and fields of pipelines
--   Approvals    core/approval/store.py: requests, events and the wait for a decision
--   Capability, Neutral, Backend  core/interfaces/capability.py, core/neutral.py,
--                core/interfaces/backend.py, and two methods of plugins/mongodb/executor.py
--   Pipeline     core/pipeline.py: evaluate, with its gates
--   Pipeline.Execute  _audit_params, _audit_event, _maybe_escalate_for_cost
--   Pipeline.Run   run, execute_approved, _execute_and_build, _build_success
--   Audit        core/audit/logger.py, core/audit/verify.py: the signed log and its verification
--   Sql          plugins/sql: the validation of requests, and requests as parameterized SQL, over
--                a dialect; plugins/postgres and plugins/mysql (translate.py, validate.py): the dialects
-- All paths are below src/guardmcp. Modules below these hold their properties; Examples holds concrete
-- requests on which the theorems are applied.
--
-- Records are the source's classes, and functions by clauses its methods, with the early returns as
-- clauses of helpers. Exceptions are values: an Option for what raises, a constructor for what a backend
-- raises. The state of the pipeline is the approval store and a history of audit records and backend
-- calls, the latest first, threaded by a state monad. A backend and a plugin are parameters. Time, ids and
-- the verdict of the rate limiter are arguments; while a request waits for a decision, the operations of
-- other tasks are a list, which a wait runs through until the event is set. Functions recurse on
-- a value, a list or a path; only the resolution of chains takes fuel, two calls for each policy and two
-- more, which is proved to be enough, and the print of a number, which is proved to
-- be the same for any fuel above it. Prose in reasons is the data that it renders.
--
-- Not modelled: parsing the files of policies, the queue and file handle of the audit log,
-- registering and closing connections, the drivers of the SQL plugins, the graph of relationships, the
-- server and the command line; times, node and trace ids of audit records; metrics and logs.
pub mod Prelude
pub mod Json
pub mod Dict
pub mod Domain
pub mod Cost
pub mod Risk
pub mod Policy
pub mod Masking
pub mod Guard
pub mod Approvals
pub mod Capability
pub mod Neutral
pub mod Backend
pub mod Pipeline
pub mod Audit
pub mod RateLimit
pub mod ResponseLimits
pub mod Connections
pub mod Planning
pub mod Sql
pub mod Examples
