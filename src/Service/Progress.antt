-- ===== src/Service/Progress.antt =====
-- What the worker's round of src/app/service.rs surely submits.
use solana_compliance_relaye.Runtime.Keeps.{Keeps}
