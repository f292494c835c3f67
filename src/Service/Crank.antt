-- ===== src/Service/Crank.antt =====
-- `AppService::process_stale_submitted_transactions`: the active polling fallback for submitted
-- transactions of which no webhook told.
use solana_compliance_relaye.Prelude.{
  ℕ, Bool, true, false, Option, none, some, String, ◌+++◌, List, [], ◌∷◌, length,
}
use solana_compliance_relaye.Domain.Status.{BlockchainStatus, TransactionStatus}
use solana_compliance_relaye.Domain.Transfer.{TransferRequest}
use solana_compliance_relaye.Runtime.{Env, Result, ok, err, Action, pure, attempt, ◌>>=◌, ◌>>◌}
use solana_compliance_relaye.Database.Transfers.{update_blockchain_status}
use solana_compliance_relaye.Database.Queue.{get_stale_submitted_transactions}
use solana_compliance_relaye.Service.Dispatch.{get_signature_status, is_blockhash_valid}

abbrev pub expired_message : String
expired_message = "Transaction blockhash expired - please re-sign and submit with fresh nonce"

abbrev pub unsigned_message : String
unsigned_message = "No blockchain signature found for submitted transaction"

module _ (env : Env) where
  unfoldable pub on_stale_blockhash :
      TransferRequest → String → String → Result Bool → Action (Unit {0})
  unfolding pure
  on_stale_blockhash r sig hash (ok true) = pure tt
  on_stale_blockhash r sig hash (ok false) =
      update_blockchain_status env r.id BlockchainStatus.expired (some sig) (some expired_message)
        none (some hash)
  on_stale_blockhash r sig hash (err _) = pure tt

  unfoldable pub handle_not_found_transaction :
      TransferRequest → String → Option String → Action (Unit {0})
  unfolding ◌>>=◌ is_blockhash_valid on_stale_blockhash
  handle_not_found_transaction r sig none = pure tt
  handle_not_found_transaction r sig (some hash) = do
    valid ← is_blockhash_valid env hash
    on_stale_blockhash r sig hash valid

  unfoldable pub on_stale_status :
      TransferRequest → String → Result (Option TransactionStatus) → Action (Unit {0})
  unfolding pure
  on_stale_status r sig (ok (some TransactionStatus.confirmed)) =
      update_blockchain_status env r.id BlockchainStatus.confirmed (some sig) none none
        r.blockhash_used
  on_stale_status r sig (ok (some TransactionStatus.finalized)) =
      update_blockchain_status env r.id BlockchainStatus.confirmed (some sig) none none
        r.blockhash_used
  on_stale_status r sig (ok (some (TransactionStatus.failed e))) =
      update_blockchain_status env r.id BlockchainStatus.failed (some sig)
        (some ("Transaction failed on-chain: " +++ e)) none r.blockhash_used
  on_stale_status r sig (ok none) = handle_not_found_transaction r sig r.blockhash_used
  on_stale_status r sig (err _) = pure tt

  unfoldable pub check_stale_signature : TransferRequest → Option String → Action (Unit {0})
  unfolding ◌>>=◌ get_signature_status on_stale_status
  check_stale_signature r none =
      update_blockchain_status env r.id BlockchainStatus.failed none (some unsigned_message) none
        none
  check_stale_signature r (some sig) = do
    status ← get_signature_status env sig
    on_stale_status r sig status

  unfoldable pub check_stale_transaction_status : TransferRequest → Action (Unit {0})
  unfolding check_stale_signature
  check_stale_transaction_status r = check_stale_signature r r.blockchain_signature

  unfoldable pub check_each : List TransferRequest → Action (Unit {0})
  unfolding ◌>>=◌
  check_each [] = pure tt
  check_each (r ∷ rs) = do done ← attempt (check_stale_transaction_status r); check_each rs

  unfoldable pub process_stale_submitted_transactions : ℕ → ℕ → Action ℕ
  unfolding ◌>>=◌
  process_stale_submitted_transactions older_than batch_size = do
    batch ← get_stale_submitted_transactions env older_than batch_size
    check_each batch
    pure (length batch)
