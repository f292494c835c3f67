-- ===== src/Service/Dispatch.antt =====
-- `AppService::process_pending_submissions` and `process_single_submission`: what the retry worker
-- does with a claimed request, with the check of the original transaction after an unknown Jito
-- outcome.
use solana_compliance_relaye.Prelude.{
  ℕ, suc, ◌+◌, Bool, true, false, Option, none, some, String, ◌+++◌, List, [], ◌∷◌, length,
  if◌then◌else◌,
}
use solana_compliance_relaye.Domain.Status.{
  BlockchainStatus, LastErrorType, TransactionStatus, is_approved, is_jito_state_unknown,
}
use solana_compliance_relaye.Domain.Error.{to_string, classify_error}
use solana_compliance_relaye.Domain.Transfer.{TransferRequest}
use solana_compliance_relaye.Runtime.{
  Env, Result, ok, err, Action, pure, ask, attempt, ◌>>=◌, ◌>>◌, seconds,
}
use solana_compliance_relaye.Database.Transfers.{
  update_blockchain_status, update_jito_tracking, increment_retry_count,
}
use solana_compliance_relaye.Database.Queue.{get_pending_blockchain_requests}
use solana_compliance_relaye.Service.Backoff.{
  calculate_backoff, after_failure, extract_blockhash_from_error,
}

-- `.unwrap_or(false)` on the answer of the blockhash query.
abbrev pub or_false : Result Bool → Bool
or_false (ok b) = b
or_false (err _) = false

-- Only an unknown Jito outcome stores the signature of the request.
abbrev pub tracked_signature : LastErrorType → TransferRequest → Option String
tracked_signature kind r = if is_jito_state_unknown kind then r.blockchain_signature else none

module _ (env : Env) where
  -- `BlockchainClient::submit_transaction`, matched by its caller. The call is recorded.
  unfoldable pub submit_transaction : TransferRequest → Action (Result (String × String))
  submit_transaction r w = (
    ok (env.submit_transaction w.tick r),
    record w { tick = suc w.tick; submissions = r ∷ w.submissions },
  )

  unfoldable pub get_signature_status : String → Action (Result (Option TransactionStatus))
  unfolding ask
  get_signature_status sig = ask (λ n. env.get_signature_status n sig)

  unfoldable pub is_blockhash_valid : String → Action (Result Bool)
  unfolding ask
  is_blockhash_valid hash = ask (λ n. env.is_blockhash_valid n hash)

  unfoldable pub on_submitted : TransferRequest → Result (String × String) → Action (Unit {0})
  unfolding ◌>>=◌
  on_submitted r (ok (sig, hash)) = do
    update_blockchain_status env r.id BlockchainStatus.submitted (some sig) none none (some hash)
    update_jito_tracking env r.id none LastErrorType.no_error (some hash)
  on_submitted r (err e) = do
    retry_count ← increment_retry_count env r.id
    plan ← after_failure env retry_count
    update_blockchain_status env r.id plan.0 none (some (to_string e)) plan.1
        (extract_blockhash_from_error e)
    update_jito_tracking env r.id (tracked_signature (classify_error e) r) (classify_error e)
        (extract_blockhash_from_error e)

  unfoldable pub dispatch : TransferRequest → Action (Unit {0})
  unfolding ◌>>=◌ submit_transaction
  dispatch r = do result ← submit_transaction r; on_submitted r result

  -- Back into the queue without a submission. The count is not held against the maximum here.
  unfoldable pub reschedule : TransferRequest → String → Action (Unit {0})
  unfolding ◌>>=◌ calculate_backoff
  reschedule r message = do
    retry_count ← increment_retry_count env r.id
    now ← ask env.clock
    update_blockchain_status env r.id BlockchainStatus.pending_submission none (some message)
        (some (now + seconds (calculate_backoff retry_count))) none

  -- The original transaction landed.
  unfoldable pub settle_original : TransferRequest → String → Action (Unit {0})
  unfolding ◌>>=◌
  settle_original r sig = do
    update_blockchain_status env r.id BlockchainStatus.submitted (some sig) none none
        r.blockhash_used
    update_jito_tracking env r.id none LastErrorType.no_error none

  unfoldable pub forget_original : TransferRequest → LastErrorType → Action (Unit {0})
  unfolding ◌>>=◌
  forget_original r kind = do update_jito_tracking env r.id none kind none; dispatch r

  unfoldable pub on_blockhash : TransferRequest → Bool → Action (Unit {0})
  on_blockhash r true = reschedule r "JitoStateUnknown: waiting for blockhash expiry"
  on_blockhash r false = forget_original r LastErrorType.network_error

  unfoldable pub on_not_found : TransferRequest → Option String → Action (Unit {0})
  unfolding ◌>>=◌ is_blockhash_valid
  on_not_found r none = forget_original r LastErrorType.network_error
  on_not_found r (some hash) = do valid ← is_blockhash_valid hash; on_blockhash r (or_false valid)

  unfoldable pub on_original_status :
      TransferRequest → String → Result (Option TransactionStatus) → Action (Unit {0})
  on_original_status r sig (ok (some TransactionStatus.confirmed)) = settle_original r sig
  on_original_status r sig (ok (some TransactionStatus.finalized)) = settle_original r sig
  on_original_status r sig (ok (some (TransactionStatus.failed _))) =
      forget_original r LastErrorType.transaction_failed
  on_original_status r sig (ok none) = on_not_found r r.blockhash_used
  on_original_status r sig (err e) =
      reschedule r ("JitoStateUnknown: RPC error checking status - " +++ to_string e)

  unfoldable pub check_original : TransferRequest → Option String → Action (Unit {0})
  unfolding ◌>>=◌ get_signature_status
  check_original r none = dispatch r
  check_original r (some sig) = do
    status ← get_signature_status sig
    on_original_status r sig status

  unfoldable pub process_single_submission : TransferRequest → Action (Unit {0})
  unfolding pure
  process_single_submission r =
      if is_approved r.compliance_status
      then (if is_jito_state_unknown r.last_error_type
          then check_original r r.original_tx_signature
          else dispatch r)
      else pure tt

  -- The loop over the batch: an error is logged, and the next request is taken.
  unfoldable pub process_each : List TransferRequest → Action (Unit {0})
  unfolding ◌>>=◌
  process_each [] = pure tt
  process_each (r ∷ rs) = do done ← attempt (process_single_submission r); process_each rs

  unfoldable pub process_pending_submissions : ℕ → Action ℕ
  unfolding ◌>>=◌
  process_pending_submissions batch_size = do
    batch ← get_pending_blockchain_requests env batch_size
    process_each batch
    pure (length batch)
