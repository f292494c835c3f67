-- ===== src/Service.antt =====
-- The application service, src/app/service.rs.
pub mod Backoff
pub mod Submit
pub mod Dispatch
pub mod Retry
pub mod Crank
pub mod Webhook
pub mod Checkout
pub mod Audit
pub mod Health
pub mod Outbox
pub mod Gate
pub mod RetryGate
pub mod Settling
pub mod Intake
pub mod Replay
pub mod BackoffBounds
pub mod Notices
pub mod Payment
pub mod Attempt
pub mod Stale
pub mod Progress
pub mod SessionAnswers
pub mod Redelivery
pub mod Unverified
pub mod Approval
pub mod Stranded
pub mod Settled
