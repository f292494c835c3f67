-- ===== src/Service/Retry.antt =====
-- `AppService::retry_blockchain_submission`: the manual retry of one request.
use solana_compliance_relaye.Prelude.{
  Bool, true, false, not, ◌&&◌, Option, none, some, String, ◌+++◌, starts_with, is_some,
  if◌then◌else◌,
}
use solana_compliance_relaye.Domain.Status.{
  BlockchainStatus, ComplianceStatus, LastErrorType, TransactionStatus, is_rejected,
  is_pending_submission, is_failed, is_jito_state_unknown,
}
use solana_compliance_relaye.Domain.Error.{AppError, ValidationError, to_string, classify_error}
use solana_compliance_relaye.Domain.Transfer.{TransferRequest}
use solana_compliance_relaye.Runtime.{
  Env, Result, ok, err, Action, pure, raise, gets, ok_or, ◌>>=◌, ◌>>◌, not_found,
}
use solana_compliance_relaye.Database.Transfers.{
  get_transfer_request, update_blockchain_status, update_compliance_status, update_jito_tracking,
  increment_retry_count,
}
use solana_compliance_relaye.Blocklist.{check_address}
use solana_compliance_relaye.Service.Backoff.{after_failure, extract_blockhash_from_error}
use solana_compliance_relaye.Service.Submit.{blocklist_hit}
use solana_compliance_relaye.Service.Dispatch.{submit_transaction, get_signature_status}

abbrev pub invalid_field : String → String → AppError
invalid_field field message = AppError.validation (ValidationError.invalid_field field message)

-- `.map(|e| e.starts_with("Blocklist:")).unwrap_or(false)`
abbrev pub was_blocklist_rejection : Option String → Bool
was_blocklist_rejection none = false
was_blocklist_rejection (some e) = starts_with e "Blocklist:"

module _ (env : Env) where
  -- A rejected request may be retried only if the blocklist rejected it and lists neither address
  -- any more; it is then approved.
  unfoldable pub clear_rejection : String → TransferRequest → Bool → Bool → Action (Unit {0})
  clear_rejection i r true true =
      raise (invalid_field "compliance_status" "Address is still blocklisted")
  clear_rejection i r true false = update_compliance_status env i ComplianceStatus.approved
  clear_rejection i r false _ =
      raise (invalid_field "compliance_status" "Cannot retry a rejected transfer")

  unfoldable pub check_rejection : String → TransferRequest → Action (Unit {0})
  unfolding ◌>>=◌ clear_rejection
  check_rejection i r = do
    hit ← gets (blocklist_hit r.to_address r.from_address)
    if is_rejected r.compliance_status
        then clear_rejection i r (was_blocklist_rejection r.blockchain_last_error) (is_some hit)
        else pure tt

  unfoldable pub refuse_listed : String → String → Option String → Action (Unit {0})
  unfolding pure raise
  refuse_listed field who none = pure tt
  refuse_listed field who (some reason) =
      raise (invalid_field field (who +++ " address is blocklisted: " +++ reason))

  unfoldable pub check_blocklist : TransferRequest → Action (Unit {0})
  unfolding ◌>>=◌ refuse_listed
  check_blocklist r = do
    to_hit ← gets (check_address r.to_address)
    refuse_listed "to_address" "Recipient" to_hit
    from_hit ← gets (check_address r.from_address)
    refuse_listed "from_address" "Sender" from_hit

  unfoldable pub check_status : TransferRequest → Action (Unit {0})
  unfolding pure raise
  check_status r =
      if not (is_pending_submission r.blockchain_status) && not (is_failed r.blockchain_status)
      then raise (invalid_field "blockchain_status" "Request is not pending submission or failed")
      else pure tt

  unfoldable pub on_retry_result :
      String → TransferRequest → Result (String × String) → Action TransferRequest
  unfolding ◌>>=◌
  on_retry_result i r (ok (sig, hash)) = do
    update_blockchain_status env i BlockchainStatus.submitted (some sig) none none (some hash)
    update_jito_tracking env i none LastErrorType.no_error (some hash)
    pure (record r {
      blockchain_status = BlockchainStatus.submitted;
      blockchain_signature = some sig;
      blockhash_used = some hash;
      blockchain_last_error = none;
      blockchain_next_retry_at = none;
      last_error_type = LastErrorType.no_error;
    })
  on_retry_result i r (err e) = do
    retry_count ← increment_retry_count env i
    plan ← after_failure env retry_count
    update_blockchain_status env i plan.0 none (some (to_string e)) plan.1
        (extract_blockhash_from_error e)
    update_jito_tracking env i r.blockchain_signature (classify_error e)
        (extract_blockhash_from_error e)
    raise e

  unfoldable pub resubmit : String → TransferRequest → Action TransferRequest
  unfolding ◌>>=◌ submit_transaction
  resubmit i r = do result ← submit_transaction env r; on_retry_result i r result

  unfoldable pub retry_settled : String → TransferRequest → String → Action TransferRequest
  unfolding ◌>>=◌
  retry_settled i r sig = do
    update_blockchain_status env i BlockchainStatus.submitted (some sig) none none r.blockhash_used
    update_jito_tracking env i none LastErrorType.no_error none
    pure (record r {
      blockchain_status = BlockchainStatus.submitted;
      blockchain_signature = some sig;
      blockchain_last_error = none;
      last_error_type = LastErrorType.no_error;
    })

  unfoldable pub retry_forgotten : String → TransferRequest → Action TransferRequest
  unfolding ◌>>=◌
  retry_forgotten i r = do update_jito_tracking env i none LastErrorType.no_error none; resubmit i r

  -- An error of the status query does not stop the retry.
  unfoldable pub on_retry_status :
      String → TransferRequest → String → Result (Option TransactionStatus) → Action TransferRequest
  on_retry_status i r sig (ok (some TransactionStatus.confirmed)) = retry_settled i r sig
  on_retry_status i r sig (ok (some TransactionStatus.finalized)) = retry_settled i r sig
  on_retry_status i r sig (ok (some (TransactionStatus.failed _))) = retry_forgotten i r
  on_retry_status i r sig (ok none) = retry_forgotten i r
  on_retry_status i r sig (err _) = resubmit i r

  unfoldable pub retry_original : String → TransferRequest → Option String → Action TransferRequest
  unfolding ◌>>=◌ get_signature_status
  retry_original i r none = resubmit i r
  retry_original i r (some sig) = do
    status ← get_signature_status env sig
    on_retry_status i r sig status

  unfoldable pub retry_found : String → TransferRequest → Action TransferRequest
  unfolding ◌>>=◌
  retry_found i r = do
    check_rejection i r
    check_blocklist r
    check_status r
    if is_jito_state_unknown r.last_error_type
        then retry_original i r r.original_tx_signature
        else resubmit i r

  unfoldable pub retry_blockchain_submission : String → Action TransferRequest
  unfolding ◌>>=◌
  retry_blockchain_submission i = do
    found ← get_transfer_request env i
    r ← ok_or (not_found i) found
    retry_found i r
