-- ===== src/Chain.antt =====
-- The blockchain clients, src/infra/blockchain: what is sent to an RPC node, and how its answers and
-- errors are read. A request to a node is an entry of a log, and its answer a parameter.
pub mod Wire
pub mod CompactU16
pub mod Jito
pub mod Rpc
pub mod Attempts
pub mod Retries
pub mod Readings
pub mod Privacy
pub mod Client
pub mod Token
pub mod Payments
pub mod TokenPayments
pub mod Errors
