-- ===== src/Lib.antt =====
-- Lineage collection: a model of the durable core of the control plane, in the package
-- apps/api/src/lineage_api of the repository.
--
-- The program collects lineage evidence about repositories and promotes approved lineage
-- packages. Its workers are coordinated by SQLite tables: an accepted event is stored with the
-- command that it asks for and an outbox event (SQLiteIntakeUnitOfWork); a dispatcher publishes
-- outbox events to lanes (OutboxDispatcher, SQLiteOutbox); workers claim messages of a lane
-- (LocalLaneBroker) and the commands behind them (SQLiteCommandStore), under leases with an
-- epoch that fences workers that come late; deployments of artifacts promote the package that
-- is bound to them (DeploymentWorkflow, SQLiteDeploymentStore). Proposals of edges are reviewed
-- (ReviewService) and published as versions of a graph, to which a fenced pointer for each
-- environment moves (PublisherService); evidence of both is kept in an immutable store
-- (EvidenceStore). Beside these stand the rules of the domain package.
--
-- The files, and what each models (paths below apps/api/src/lineage_api):
-- - Clock: _utc_text and parse_utc of infrastructure/local_broker.py and application/models.py.
-- - Models, Database: the records of application/models.py, and the tables of migrations.py and
--   db.py. Database/Transaction: Database.transaction of db.py, and the exceptions.
-- - Broker, Broker/Rows: LocalLaneBroker of infrastructure/local_broker.py, publish, claim,
--   acknowledge, retry, redrive and the queries; Rows has the WHERE and SET parts of its
--   statements. The other children are about its calls: Cases (what a call has found and
--   written), Turn and Selection (the SELECT of a claim), Invariant and History (well-formed tables), Heads and Fifo
--   (the order in a group), Delivery, Evolution, Dedup and Fencing.
-- - Outbox: SQLiteOutbox of infrastructure/local_broker.py and application/outbox.py; Delivery,
--   Dispatch and Batch are about them.
-- - Control, Control/Rows, Control/Stages: SQLiteCommandStore of infrastructure/sqlite_control.py,
--   submit, get, claim, renew, fail in the first, complete, record_stage and completed_stage in
--   the last. The other children are about its calls, with Effects as the list of what a call
--   may do to the tables.
-- - Intake: SQLiteIntakeUnitOfWork of infrastructure/sqlite_control.py.
-- - Deployment: SQLiteDeploymentStore of infrastructure/sqlite_deployment.py, with its records in
--   Deployment/Tables and complete in Deployment/Completion. Deployment/Workflow: handle of
--   application/workflows/deployment.py, over this store and the publisher; Activation and
--   Promotion are about it.
-- - Evidence: EvidenceStore.put of services/evidence_store.py; Evidence/Immutable follows an object.
-- - Publication: PublisherService of services/publisher.py, its tables in Publication/Tables,
--   publish in Publication/Operations (the parts) and Publication/Publish (the stages). Writes is
--   the list of what a call may do to pointers, reservations and versions; Effects, Parts and
--   Resumption read it off the calls; History, Fences, Pointers, Versions and Rounds are
--   about histories, and Promoted about promote_existing.
-- - Review: ReviewService of services/review.py, the calls that change a proposal in
--   Review/Decisions; Effects, History, Lineages and Verdicts are about them.
-- - Domain: domain/confidence.py, domain/product_confidence.py, domain/impact.py,
--   domain/proposals.py, domain/urns.py and services/liveness.py.
-- - Workflows: WorkflowDefinition of application/workflows/definitions.py, its records and
--   reachable_stage_ids; Reachable is about the loop. route_reaches_terminal is Workflows/Routes.
-- - Prelude: lists as tables, with SELECT and UPDATE. Tests: concrete inputs.
--
-- How the state is modelled. A table is the list of its rows in the order of insertion, and a
-- Database the record of the tables. A call is a function from the database (and the reading of
-- the clock, which is the argument `now`) to a result or an exception and the database after it;
-- `transaction` puts back the database that it began with when its body raises. SQLite's
-- BEGIN IMMEDIATE runs one transaction at a time, so that an interleaving of workers is a list of
-- calls: `Call`, `step` and `run` of each History module, and of Deployment/Effects. A worker may
-- make any call with any lease or message, one that it made up included. Keys and checks of the
-- tables are guards that raise. An instant is the number of its microseconds on the UTC time line
-- since the start of the year 1, and a lease that would end after datetime.max raises OverflowError;
-- the comparisons that SQL makes on timestamp columns are comparisons of their texts, as in the
-- source. Python's integers are natural numbers where the code only adds and compares.
--
-- Parameters. StageIdentity.idempotency_key is a SHA-256 digest of a JSON text: the functions that
-- need it take it as a function on identities, of which nothing is assumed; so too the digests of
-- edges, manifests, proposals, approvals and audit rows, random audit identities, pathlib's reading
-- of a key and the verdict of the authenticator. The callbacks after_publish and after_receipt are
-- arguments that return or raise, and so is the hook of the publisher, by its boundaries. What
-- other workers do between the calls of DeploymentWorkflow.handle, and between the two transactions
-- of promote_existing in it, is an arbitrary function on the tables. A publication reads the clock
-- once. The loop that writes edges runs on fuel, one more round than there are edges: each round
-- writes one edge at least when the batch size is positive, which the constructor asks for. The
-- loop of reachable_stage_ids has two rounds more than there are routes: a stage pushes its targets
-- once. That of route_reaches_terminal has as many rounds as there are routes, those it starts from
-- and one more. The other loops of the source are over lists.
--
-- Not modelled: connections and the WAL mode, naive datetimes (which the code refuses), the text
-- of error messages, the calendar digits of timestamp texts (the order of two texts is that of their
-- whole seconds, and then that of the point, the six digits and the Z), the JSON forms of records,
-- the HMAC authenticator, the analyzers, the web, command line and AWS adapters, and the services
-- for orchestration and queries. ReviewService reads before the transaction of finalize: other calls between the two are left out.
pub mod Prelude
pub mod Clock
pub mod Models
pub mod Database
pub mod Broker
pub mod Outbox
pub mod Control
pub mod Intake
pub mod Deployment
pub mod Domain
pub mod Evidence
pub mod Publication
pub mod Review
pub mod Workflows
pub mod Tests
