-- ===== src/Database.antt =====
-- The database, src/infra/database/postgres.rs: one action for each statement. The tables are lists
-- of parsed rows.
pub mod Table
pub mod Statement
pub mod Gives
pub mod Transfers
pub mod Queue
pub mod Sessions
pub mod Log
pub mod Effects
pub mod Claim
pub mod Claimable
