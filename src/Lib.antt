-- ===== src/Lib.antt =====
-- RecallOps: the incident workflow, the authority ledger, judge sessions and governed memory.
--
-- The program (src/recallops) records incidents of a service, proposes a mitigation from reviewed
-- memories, and takes each incident through a workflow in which agents, operators, reviewers and the
-- system may each make certain moves. Every accepted move is appended to a hash-chained ledger of
-- events. What an incident taught becomes a memory under governance, which is retrieved only after an
-- independent reviewer has activated it.
--
-- The parts, and where they are modelled:
--   Workflow/States, Workflow/Snapshot: the enumerations, the snapshot and the capability manifest of
--     src/recallops/workflow.py.
--   Workflow/Repository: the repository protocol, as a record of operations and the laws that the
--     coordinator relies on. Workflow/InMemory: `InMemoryWorkflowRepository`, an instance of it.
--   Workflow/Coordinator: `WorkflowCoordinator`, over any repository, an optional ledger and a fault
--     hook; Authority, Moves, Outcomes and History below it hold what is proved of one call and of many.
--   Ledger/Event: `AuthorityEvent`, its canonical payload, hash and verification, of
--     src/recallops/ledger.py. Ledger/Repository: the protocol as the coordinator calls it.
--     Ledger/InMemory, Ledger/Receipts: `InMemoryAuthorityLedgerRepository`.
--   Sessions: `InMemoryJudgeSessionRepository` of src/recallops/sessions.py.
--   Domain, Incident, Memory/Record: enumerations and records of src/recallops/domain.py.
--   Memory/Version, Memory/Governance, Memory/Store: `version_compatibility`, `_governance_target`
--     and `InMemoryStore` of src/recallops/store.py.
--   Service/Approval: approvals and executions of `IncidentService`, src/recallops/service.py.
--   Service/Sandbox: the recovery policy of src/recallops/sandbox.py; Service/Sandbox/Executions: the
--     simulation and its observation.
--   Auth: `Principal` and `JudgeSessionAuthenticator` of src/recallops/auth.py.
--   Api: the guards of src/recallops/api.py in judge mode. Api/Handoff, Api/Exchange and Api/Scope: the
--     issue of a review handoff, its exchange for a reviewer's session, and the scope of a review.
--     Api/Idempotency: mutations by key, over the in-memory table, one and many.
--   Receipts/Prefix, Receipts/Bindings: `verify_ledger_prefix` and `verify_causal_bindings` of
--     src/recallops/receipts.py. Receipts/Requests: the leased requests for receipts of
--     src/recallops/receipt_outbox.py, each call a transaction on two tables.
--   Outbox: the leases on messages of src/recallops/outbox.py, over Table, a database's table as a list
--     of rows. Outbox/Steps: the life of a message as a step relation. Outbox/Deliver: the delivery loop,
--     with the statements of other workers between its own.
--   Retry: `run_serializable` of src/recallops/db_retry.py, by recursion on the attempts that are left.
--   Common, Result, Dict: Python's lists, texts, exceptions and dictionaries.
--   A module Tests holds runs at concrete values.
--
-- How the code becomes definitions. A method is a function from its arguments and the state to its
-- result and the state after it; the state comes back beside an error too, so that what a raise
-- leaves behind is visible. A method that holds the lock is one step. The time and fresh identifiers
-- are arguments, one reading of the clock per call. UUIDs are their canonical texts, times are
-- microseconds, integers are natural numbers without a bound, as Python's are. A dictionary is a list
-- of pairs in the order of the first insertion. Floating-point numbers are a type with the operations
-- that the code uses (Memory/Record), scores of compatibility are hundredths. The one recursion on
-- fuel is the decimal text of a number (Common/Text): each round divides by ten, and there is one
-- round more than the number.
--
-- Parameters stand for code outside the repository: SHA-256, RFC 8785 canonical JSON, the text of a
-- time and uuid5 (`Hashing`, Ledger/Event), the Unicode tables of the interpreter (`Unicode`,
-- Memory/Version), the evidence verifier that the service is given (Service/Approval), the digests of
-- the sandbox's material (Service/Sandbox/Executions), SHA-256 and the keyed hash of addresses
-- (`Authenticator`, Auth), random tokens (arguments), the archive (Outbox/Deliver) and a retried
-- transaction (Retry).
--
-- Not modelled: the PostgreSQL repositories of workflows, ledger, sessions and memories (SQL on a
-- database), the endpoints beside those of Api and the allocation of runs, the demo and OIDC
-- authenticators, the manifest, signing and archiving of receipts, embeddings and
-- the ranking of memories by similarity, the preparation of analyses and outcomes, the timeline of the
-- ledger, and the evaluation, diagnostic and release tools.
pub mod Common
pub mod Result
pub mod Dict
pub mod Workflow
pub mod Ledger
pub mod Sessions
pub mod Domain
pub mod Retry
pub mod Receipts
pub mod Table
pub mod Outbox
pub mod Auth
pub mod Api
pub mod Memory
pub mod Incident
pub mod Service
