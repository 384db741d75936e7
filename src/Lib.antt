-- ===== src/Lib.antt =====
-- PactAgent: agreements, milestones, escrows, proofs and disputes between the users of an app,
-- served over HTTP by server/src on a PostgreSQL database, with the money on one of three rails.
--
-- The parts and the files that model them:
--
-- Prelude (Tests, Lists, Tables) holds what the other files share: Boolean tests on the native
-- natural numbers, equality by instances, and the queries on a table kept as a list of rows.
--
-- Errors is common/errors/app-error.ts: the kinds of error, and Result for what may throw.
--
-- Lifecycle holds the state machines: Agreement, Milestone and Escrow the transition tables of the
-- *.state-machine.ts files, Dispute and DisputePaths modules/disputes/dispute.state-machine.ts,
-- Proof and ProofPaths modules/proofs/proof.lifecycle.ts. Chains and Reachability are about moves
-- in a row.
--
-- Amounts is common/amounts. A text is the list of its code points; BigInt is the natural number.
--
-- Store is the database. Rows has the rows of prisma/schema.prisma with the columns that the
-- services use; ids and other texts that are only compared are numbers. Tx is what runs inside
-- prisma.$transaction: a function of the tables that returns new tables or an error, and an error
-- leaves no trace. Action is what a request does around it: commits made before an error stay.
-- Respects, At and Holds are the rules for a relation between the tables before and after, and
-- Gives for what holds of a result.
--
-- Repository has one module per *.repository.ts: the queries that the services make, each with the
-- unique indexes of prisma/schema.prisma and its migrations. Jobs is enqueueJob of
-- services/jobQueueService.ts, Events also the deliveries of
-- modules/webhooks/webhook.repository.ts. Queries, Raw, Admits, Writes and Admitted say what a
-- relation must admit for all of them to keep it.
--
-- Idempotency is common/idempotency/idempotency.service.ts, one function for each of its
-- functions: get_idempotency_replay, recover_idempotent (the outer catch) and
-- run_idempotent_transaction.
--
-- Escrow is modules/escrows/escrow.service.ts. Adapter has the EscrowAdapter interface as a record
-- of functions, so that the rails are parameters, and the mock and manual rails. Scope,
-- Settlement, Creation, Funding and Reconciliation are the bodies of the transactions, and Flows
-- the exported functions: execute_escrow_settlement (releaseEscrow, refundEscrow),
-- create_escrow_for_app, mark_escrow_funded and reconcile_ckb_transaction, with the retries and
-- the replays that follow an error. ScopeKeeps, Keeps, MoreKeeps, Opening and FlowKeeps carry a
-- relation from the writes to the requests; OnEscrows, History and OnePerScope apply them. Retry
-- is about a request that is sent again, over Answered, Stored and Found of Idempotency.
--
-- Disputes is modules/disputes/dispute.service.ts and Proofs modules/proofs/proof.service.ts, each
-- request the work that it hands to runIdempotentTransaction; Keeps carries a relation to them.
--
-- Agreements is modules/agreements/agreement.service.ts and Milestones
-- modules/milestones/milestone.service.ts, with Keeps for both; Milestones.Allocation is about the
-- sum of the milestones of an agreement.
--
-- Api is the way of a request to its handler. Keys has modules/api-keys and the scopes of
-- modules/auth: extract_api_key, authenticate_api_key, require_api_key and the revocation of a
-- key. Apps has modules/apps and the creation of a key. Api itself has the routes behind an API
-- key that change the tables, with the scope of each (the *.routes.ts files; those of
-- modules/webhooks stand in Webhooks.Routes), requireScope of modules/auth/rbac.middleware.ts, the
-- controllers as run_route, and serve, a whole request from its headers on. The routes of apps and
-- keys, which are behind a wallet session, and those of administrators are not among them. Guard
-- carries a relation to all routes, LastUse has what becomes of the accounts, and Access, History
-- and Revocation apply them.
--
-- Webhooks has the outgoing side. Addresses and Fetch are modules/webhooks/webhook.security.ts:
-- the blocked names and addresses, resolve_allowed_target, and fetch_webhook_url, which follows
-- redirects and lists the requests that it sends. Delivery is the part of webhook.service.ts and
-- webhook.repository.ts that attempts a delivery, records its result and queues it again, and
-- Endpoints (with Repository.Endpoints) the part that creates, updates and deletes an endpoint.
-- Routes is webhook.routes.ts with webhook.controller.ts, and carries a relation to its requests.
--
-- Ckb is the part of rails/ckb that needs no SDK: Codec is escrow-codec.ts over the texts of Hex,
-- Scripts is script-utils.ts, and Reconciliation is reconciliation.ts: observe_transaction,
-- verify_funding and verify_settlement, over the answers of a node.
--
-- RateLimit is common/rate-limit/infrastructure-rate-limit.ts with its buckets in memory, and
-- Resilience common/resilience/provider.ts: the retries and the circuit breaker around a request.
--
-- JobQueue is the part of services/jobQueueService.ts that the workers call: claim_available_jobs,
-- complete_job, defer_job, fail_job, renew_job_lease, release_stale_locks and replay_job, with
-- Locks and Lease about who may touch a job.
--
-- Tenancy states what a request of one app leaves of the rows of every other app; its Webhooks has
-- the same with the endpoints row by row.
--
-- Tests has two apps and the theorems at work on them.
--
-- How the model reads the program: a request sees one clock reading; concurrent requests meet in
-- the database, and each transaction is one step there. What the code relies on against an
-- interleaving of two transactions, its guarded updates and the unique indexes, is in the model,
-- and the interleaving of their statements is not. The tables list the newest row first, and
-- findFirst without an order takes the first of them. What the code calls and does not define is a
-- parameter: the hash of a key, the decryption of a secret, net.isIP, Number and BigInt, the URL
-- parser, the resolver, the CKB node, the sending of a request, and the run of a provider's
-- request. There is no fuel: a loop of the code runs over a list or counts its rounds down. A
-- status column holds the words of its enumeration alone, as the CHECK constraints say. The lists
-- and counts of the read-only endpoints, the JSON payloads of events, the raw payloads of adapters
-- and the log are left out.
--
-- Not modelled: of the CKB rail (server/src/rails/ckb) the client of the node, the signer and the
-- building of transactions, and the adapter over them, which call the node or the SDK; the reports
-- of modules/admin and modules/health; the drawn retry delay of a job; the store of the rate
-- limits in Redis; the concurrency limit of provider.ts; the validation of bodies, configuration,
-- logs and metrics; the web client in web; and the lock contract in contracts, which is Rust.
pub mod Agreements
pub mod Milestones
pub mod Prelude
pub mod Errors
pub mod Lifecycle
pub mod Store
pub mod Amounts
pub mod Repository
pub mod Idempotency
pub mod Escrow
pub mod Disputes
pub mod Proofs
pub mod JobQueue
pub mod Tenancy
pub mod Ckb
pub mod Webhooks
pub mod RateLimit
pub mod Resilience
pub mod Api
pub mod Tests
