-- ===== src/Lib.antt =====
-- Verification of the Solana compliance relayer.
--
-- The relayer accepts signed transfers, screens them against a blocklist and a compliance provider,
-- stores them in PostgreSQL and hands approved ones to Solana from a worker, with webhooks and a
-- crank that settle what was submitted.
--
-- - Domain: src/domain/types.rs, src/domain/error.rs and classify_error of src/domain/traits.rs.
--   Domain.Status has the status enums and their texts, Domain.Error the errors, Domain.Transfer the
--   records, Domain.Request validation and signature check of a request.
-- - Runtime: what the service runs on. World is the state (tables, blocklist cache, record of
--   submissions), Env every answer from outside, one for each effect in order, faults of the
--   database included. Action is state passing with errors; a do block is a chain of `?`.
--   Runtime.Keeps and Runtime.Fails are the rules for what actions keep and when they fail.
-- - Database: src/infra/database/postgres.rs, one action for each statement: Database.Transfers,
--   Database.Queue (the claim of the worker and the query of the crank), Database.Sessions;
--   Database.Table, Database.Effects, Database.Log and Database.Claim hold their laws, and
--   Database.Claimable says which rows a claim may take.
-- - Blocklist: src/infra/blocklist/mod.rs, and its laws in Blocklist.Cache.
-- - Service: src/app/service.rs. Service.Submit is submit_transfer, Service.Dispatch
--   process_pending_submissions, Service.Retry retry_blockchain_submission, Service.Crank
--   process_stale_submitted_transactions, Service.Webhook the two webhooks, Service.Checkout the
--   checkout sessions, Service.Audit the audit report, Service.Health health_check, and
--   Service.Backoff the constants and the retry delay. The other modules under Service hold proofs.
-- - System: the operations above as events on one world, one after the other, and the worlds that a
--   run of them reaches. System.Screened has the invariant, and System.Statements what keeps it in the
--   database; System.Batches, System.Rounds, System.Handlers, System.Deliveries, System.Sessions and
--   System.Resubmission hold the operations' proofs; System.Reach the runs.
-- - Risk: src/app/risk_service.rs, and its laws in Risk.Screening; Risk.Range is
--   src/infra/compliance/range.rs, with Risk.FailClosed.
-- - Chain: src/infra/blockchain. Chain.Wire and Chain.Jito are the private submission of quicknode.rs;
--   Chain.Rpc, Chain.Errors, Chain.Client and Chain.Token are solana.rs: calls with retries and polls,
--   errors, SOL and token transfers. The other modules under Chain hold proofs. The node, the SDK, the
--   HTTP client and Base58 are parameters; a request sent or a transaction handed over is an entry of
--   a list. The wait for a confirmation has two rounds of fuel a second and one more, enough since
--   a round sleeps for half a second.
-- - Worker: the loops of src/app/worker.rs over what wakes them, with Worker.Loops, and in
--   Worker.Privacy src/infra/privacy/health_check.rs with the worker's check, which no loop calls.
-- - Api: src/api. Api.Errors is the error response, Api.Payload the parser of QuickNode payloads,
--   Api.Webhooks the webhook handlers and the admin guard, Api.Handlers the other handlers,
--   Api.Requests the routes as arrivals at the running server, mixed with background rounds;
--   Api.Reports says what an event reports and of which object of a payload; Api.Guards,
--   Api.Confirmations and Api.Reach hold proofs. serde_json is a parameter; a panic of a handler is a
--   value.
-- - Tests: a small environment and small worlds, and the theorems at work on them.
--
-- Numbers are natural numbers, risk scores and a payload's block time integers. Times are in
-- microseconds, the resolution of the database; retry counts and amounts are never negative in the
-- source, and the one counter that grows stops at the end of its 32-bit column with the error of the
-- database. A stored JSON value is kept by its text. Each statement is atomic and reads one clock.
-- Decimal numerals have twenty digits of fuel, enough for 64 bits; all other loops run over lists.
--
-- An event of a run is atomic: the interleaving of two operations at their statements is not modelled.
-- Where the service calls the blockchain and compliance clients, the environment gives their answers.
--
-- Not modelled: routing, JSON decoding and rate limits of the web framework, confidential transfers,
-- the Helius client and the fee estimates, base58 and Ed25519, which are parameters, the parsing of
-- database rows and the listing with a cursor.

pub mod Prelude
pub mod Domain
pub mod Runtime
pub mod Database
pub mod Blocklist
pub mod Chain
pub mod Service
pub mod System
pub mod Worker
pub mod Api
pub mod Risk
pub mod Tests
