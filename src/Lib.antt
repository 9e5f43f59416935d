-- ===== src/Lib.antt =====
-- CUSTOS-CORE: a model of the governance service under custos/, and what holds of it.
--
-- The service decides on the content and the actions of agents. A policy engine gives a decision, a rate
-- limiter bounds the requests of a client, an audit chain keeps a tamper-evident record of each decision
-- in a store, and an anchor manager commits the head of each chain to sinks outside the deployment,
-- against which an outsider re-walks a copy of the store.
--
-- The parts and their files:
--   Common         helpers: Boolean tests, lists, error results (Outcome), dictionaries (Dict).
--   Audit          custos/audit.py. Audit/Record has the record, the preimage of each binding version and
--                  its hash; Audit/Store the table with its unique index and the errors of a store;
--                  Audit/Chain the class AuditChain (record is `record_entry`, opening is `open_chain`).
--   Custody        custos/custody.py. Custody/Anchor has the two kinds of anchor, Custody/Sink the sinks,
--                  Custody/Manager the AnchorManager, Custody/Verify the external re-walk.
--   RateLimiter    custos/rate_limiter.py.
--   Policy         custos/policy_engine.py (Policy/Rule, Policy/Luhn, Policy/Engine), and the OPA and hybrid
--                  engines of custos/opa_engine.py and custos/hybrid_engine.py (Policy/Opa).
--                  custos/policy_citation.py (Policy/Citation) has the digests that are cited.
--   ActionGate     custos/action_gate.py: the gate's state and its digest cache; ActionGate/Evaluate has
--                  evaluate_action and record_reconciliation, and the verdict of custos/mcp_gate_adapter.py.
--   McpProxy       custos/mcp_proxy.py: a call of a tool through the breaker and the gate.
--   Execution      custos/execution.py: the check of a target (Execution/Target), the circuits and `forward`.
--   PolicyStore    custos/policy_store.py: the rules that tenants keep across restarts.
--   Tenant         custos/tenant.py: the registry of tenants and their custom rules, over PolicyStore.
--   Retention      custos/retention.py: the content store (Retention), recording with contents and purging
--                  (Retention/Decision), `reconcile` (Retention/Reconcile).
--   Validation     custos/validation.py: the checks of a request.
--   Firewall       custos/firewall.py: `enforce`, which composes Validation, RateLimiter, the engines, Execution
--                  and the audit chain.
--   Service        main.py: the handlers of /v1/evaluate (Service/Evaluate) and of /v1/evaluate_action
--                  (Service/Actions) with the counters of /metrics; the records that they leave
--                  are in Service/Recording.
--   Replay         custos/replay.py and custos/policy_diff.py, and the handler of /v1/replay in main.py.
--   Startup        custos/scaling.py, custos/audit_persistence.py and custos/content_retention.py: the checks that
--                  the lifespan of main.py makes before it serves.
--   Admin          main.py: the administrative handlers of retention, policies and tenants.
--   Tests          concrete runs.
--
-- How the code is read:
--   An object is a record, and a method is a function from the object (and what it calls outside) to its
--   result and the object after; a method under a lock is one step. An exception is a value.
--   SHA-256, json.dumps and the case functions of texts are fields of `Library`, about which nothing is
--   assumed: where a theorem would need that two texts with one hash are the same text, it has the
--   alternative that a collision is given.
--   A table is the list of its rows. What a database engine may raise on its own is an argument, and so
--   are the reply of the OPA server, the result of a regular expression and the clock. An exception of an engine
--   (re.error on a pattern, a body of the OPA server that cannot be read) is an argument of /v1/evaluate alone;
--   everywhere else the engine is one that returns.
--   Times are natural numbers (milliseconds for the rate limiter and the circuits). Lengths and epochs are unbounded
--   integers in the source, which are never negative.
--   Every loop is structural recursion on the list that it goes through, so no fuel is needed.
--
-- Not modelled: threads, database connections and schema migration, the git commands and the time-stamp
-- protocol, the building of the custody sinks from the environment, HTTP, authentication, logging, the
-- texts of messages, snapshots, and the deployment binding. The action gate takes retention of contents as
-- off; what recording with contents does is in Retention.
pub mod Common
pub mod Audit
pub mod Custody
pub mod RateLimiter
pub mod Policy
pub mod McpProxy
pub mod ActionGate
pub mod Execution
pub mod Tenant
pub mod Retention
pub mod Validation
pub mod Firewall
pub mod PolicyStore
pub mod Service
pub mod Replay
pub mod Startup
pub mod Admin
mod Tests
