-- ===== src/System.antt =====
-- The running service: the operations of src/app/service.rs, src/app/risk_service.rs and
-- src/infra/blocklist/mod.rs as events that the router of src/api/router.rs and the loops of
-- src/app/worker.rs raise, one after the other, on one world. The answers of the database and of
-- the blockchain client are those of the environment at each moment.
pub mod Screened
pub mod Statements
pub mod Batches
pub mod Rounds
pub mod Handlers
pub mod Deliveries
pub mod Sessions
pub mod Resubmission
pub mod Reach
use solana_compliance_relaye.Prelude.{ℕ, Option, List, [], ◌∷◌, String}
use solana_compliance_relaye.Domain.Transfer.{
  SubmitTransferRequest, CreateCheckoutSessionRequest, HeliusTransaction, QuickNodeWebhookEvent,
}
use solana_compliance_relaye.Runtime.{Env, World}
use solana_compliance_relaye.Blocklist.{load_from_database, add_address, remove_address}
use solana_compliance_relaye.Risk.{check_wallet_risk}
use solana_compliance_relaye.Service.Submit.{submit_transfer}
use solana_compliance_relaye.Service.Dispatch.{process_pending_submissions}
use solana_compliance_relaye.Service.Crank.{process_stale_submitted_transactions}
use solana_compliance_relaye.Service.Retry.{retry_blockchain_submission}
use solana_compliance_relaye.Service.Webhook.{process_helius_webhook, process_quicknode_webhook}
use solana_compliance_relaye.Service.Checkout.{
  create_checkout_session, get_checkout_session, submit_checkout_transfer,
}

-- What the service does at one moment.
pub data Event : Type 0 where
  submit : SubmitTransferRequest → Event
  worker_round : ℕ → Event
  crank_round : ℕ → ℕ → Event
  manual_retry : String → Event
  helius : List HeliusTransaction → Event
  quicknode : List QuickNodeWebhookEvent → Event
  create_session : CreateCheckoutSessionRequest → Event
  read_session : String → Event
  pay_session : String → SubmitTransferRequest → Event
  load_blocklist : Event
  list : String → String → Event
  unlist : String → Event
  check_wallet : ℕ → String → Event

module _ (env : Env) where
  unfoldable pub step : Event → World → World
  step (Event.submit request) w = (submit_transfer env request w).1
  step (Event.worker_round batch_size) w = (process_pending_submissions env batch_size w).1
  step (Event.crank_round older_than batch_size) w =
      (process_stale_submitted_transactions env older_than batch_size w).1
  step (Event.manual_retry i) w = (retry_blockchain_submission env i w).1
  step (Event.helius ts) w = (process_helius_webhook env ts w).1
  step (Event.quicknode es) w = (process_quicknode_webhook env es w).1
  step (Event.create_session request) w = (create_checkout_session env request w).1
  step (Event.read_session i) w = (get_checkout_session env i w).1
  step (Event.pay_session i payload) w = (submit_checkout_transfer env i payload w).1
  step Event.load_blocklist w = (load_from_database env w).1
  step (Event.list address reason) w = (add_address env address reason w).1
  step (Event.unlist address) w = (remove_address env address w).1
  step (Event.check_wallet ttl address) w = (check_wallet_risk env ttl address w).1

  unfoldable pub run : List Event → World → World
  unfolding step
  run [] w = w
  run (e ∷ es) w = run es (step e w)
