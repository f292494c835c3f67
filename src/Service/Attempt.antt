-- ===== src/Service/Attempt.antt =====
-- What one attempt of the worker of src/app/service.rs leaves in the row of its request.
use solana_compliance_relaye.Prelude.{ℕ, suc, ◌≡◌, Option, none, some, String, leb, if◌then◌else◌}
use solana_compliance_relaye.Domain.Status.{BlockchainStatus, LastErrorType}
use solana_compliance_relaye.Domain.Error.{AppError, BlockchainError, to_string, classify_error}
use solana_compliance_relaye.Domain.Transfer.{TransferRequest}
use solana_compliance_relaye.Runtime.{Env, World, Result, ok, err, Action, ◌>>◌}
use solana_compliance_relaye.Database.Table.{find}
use solana_compliance_relaye.Database.Transfers.{update_blockchain_status, update_jito_tracking}
use solana_compliance_relaye.Service.Backoff.{extract_blockhash_from_error}
use solana_compliance_relaye.Service.Dispatch.{tracked_signature}

-- The original transaction to check before the next attempt, by the error, the signature that the
-- request carries, and the one stored before.
unfoldable pub original_after : AppError → Option String → Option String → Option String
original_after (AppError.blockchain (BlockchainError.jito_state_unknown _)) (some sig) original =
    some sig
original_after _ _ original = original

-- The row of a request after a failed attempt: the count, the error and its kind are stored, the
-- signature and the addresses stay, and the request failed for good from the tenth failure on.
pub record HasFailed (r : TransferRequest) (original sent : Option String) (e : AppError) (n : ℕ)
    (w : World) : Type 0 where
  pub row : TransferRequest
  pub found : find r.id w.transfers ≡ some row
  pub status :
      row.blockchain_status
      ≡ (if leb 10 n then BlockchainStatus.failed else BlockchainStatus.pending_submission)
  pub count : row.blockchain_retry_count ≡ n
  pub error : row.blockchain_last_error ≡ some (to_string e)
  pub kind : row.last_error_type ≡ classify_error e
  pub tracked : row.original_tx_signature ≡ original_after e r.blockchain_signature original
  pub signature : row.blockchain_signature ≡ sent

module _ (env : Env) (up : (n : ℕ) → env.fault n ≡ none) where
  -- The rest of a failed attempt, after the plan is made.
  store_failure : TransferRequest → AppError → BlockchainStatus × Option ℕ → Action (Unit {0})
  store_failure r e plan =
      update_blockchain_status env r.id plan.0 none (some (to_string e)) plan.1
        (extract_blockhash_from_error e)
      >> update_jito_tracking env r.id (tracked_signature (classify_error e) r) (classify_error e)
          (extract_blockhash_from_error e)

-- The row of a request after a successful attempt.
pub record HasSubmitted (r : TransferRequest) (sig hash : String) (q : TransferRequest) (w : World)
    : Type 0 where
  pub row : TransferRequest
  pub found : find r.id w.transfers ≡ some row
  pub status : row.blockchain_status ≡ BlockchainStatus.submitted
  pub signature : row.blockchain_signature ≡ some sig
  pub blockhash : row.blockhash_used ≡ some hash
  pub clean : (row.blockchain_last_error ≡ none) × (row.last_error_type ≡ LastErrorType.no_error)
  pub count : row.blockchain_retry_count ≡ q.blockchain_retry_count

abbrev pub IsAttempt : TransferRequest → TransferRequest → Result (String × String) → World → Type 0
IsAttempt r q (ok (sig, hash)) w = HasSubmitted r sig hash q w
IsAttempt r q (err e) w =
    HasFailed r q.original_tx_signature q.blockchain_signature e (suc q.blockchain_retry_count) w
