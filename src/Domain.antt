-- ===== src/Domain.antt =====
-- The data of the relayer, src/domain/: statuses, errors, transfers, checkout sessions, audits.
pub mod Status
pub mod Error
pub mod Transfer
pub mod Request
pub mod Codec
