-- ===== src/Service/Unverified.antt =====
-- What the manual retry of src/app/service.rs lets through after an unknown Jito outcome.
use solana_compliance_relaye.Prelude.{
  suc, ◌≡◌, refl, ap, ◌∙◌, true, false, Option, none, some, List, ◌∷◌, String, arith, ℕ,
  if◌then◌else◌,
}
use solana_compliance_relaye.Domain.Status.{
  TransactionStatus, is_rejected, is_failed, is_jito_state_unknown,
}
use solana_compliance_relaye.Domain.Transfer.{TransferRequest}
use solana_compliance_relaye.Runtime.{Env, World, Result, ok, err, Action, ◌>>=◌, bind-ok}
use solana_compliance_relaye.Runtime.Keeps.{Keeps, keeps_rules}
use solana_compliance_relaye.Database.Table.{find}
use solana_compliance_relaye.Database.Statement.{statement}
use solana_compliance_relaye.Database.Transfers.{get_transfer_request, update_jito_tracking}
use solana_compliance_relaye.Database.Log.{OnLog, fixed, log_rules}
use solana_compliance_relaye.Blocklist.{check_in, check_address}
use solana_compliance_relaye.Service.Gate.{after_failure-OnLog}
use solana_compliance_relaye.Service.Retry.{
  check_rejection, check_blocklist, check_status, refuse_listed, on_retry_result, resubmit,
  retry_found, retry_original, on_retry_status, retry_forgotten, retry_blockchain_submission,
}

module _ {Q : List TransferRequest → Type 0} (env : Env) where
  on_retry_result-OnLog :
      (i : String) (r : TransferRequest) (a : Result (String × String))
      → Keeps (OnLog Q) (on_retry_result env i r a)
  unfolding on_retry_result
  on_retry_result-OnLog i r (ok (sig, hash)) = search (keeps_rules, log_rules) depth 8
  on_retry_result-OnLog i r (err e) = search (keeps_rules, log_rules, after_failure-OnLog) depth 12

resubmit_submits :
    (env : Env) (i : String) (r : TransferRequest) (w : World)
    → (resubmit env i r w).1.submissions ≡ r ∷ w.submissions
unfolding resubmit
resubmit_submits env i r w =
    fixed (on_retry_result-OnLog env i r (env.submit_transaction w.tick r)) _ refl

-- An answer on the original transaction that does not tell that it failed or landed.
abbrev pub IsInconclusive : Result (Option TransactionStatus) → Type 0
IsInconclusive (ok none) = Unit
IsInconclusive (err _) = Unit
IsInconclusive _ = ⊥

on_retry_status_resubmits :
    (env : Env) (i : String) (r : TransferRequest) (sig : String)
    (a : Result (Option TransactionStatus)) (w : World)
    → ((n : ℕ) → env.fault n ≡ none)
    → IsInconclusive a
    → (on_retry_status env i r sig a w).1.submissions ≡ r ∷ w.submissions
unfolding on_retry_status retry_forgotten update_jito_tracking statement ◌>>=◌
on_retry_status_resubmits env i r sig (ok (some TransactionStatus.confirmed)) w up h = absurd h
on_retry_status_resubmits env i r sig (ok (some TransactionStatus.finalized)) w up h = absurd h
on_retry_status_resubmits env i r sig (ok (some (TransactionStatus.failed e))) w up h = absurd h
on_retry_status_resubmits env i r sig (ok none) w up h = rw (up w.tick) (resubmit_submits env i r _)
on_retry_status_resubmits env i r sig (err e) w up h = resubmit_submits env i r w

rejection_passes :
    (env : Env) (i : String) (r : TransferRequest) (w : World)
    → is_rejected r.compliance_status ≡ false
    → check_rejection env i r w ≡ (ok tt, w)
unfolding check_rejection ◌>>=◌
rejection_passes env i r w c = simp c refl

blocklist_passes :
    (env : Env) (r : TransferRequest) (w : World)
    → check_in w.blocklist r.to_address ≡ none
    → check_in w.blocklist r.from_address ≡ none
    → check_blocklist env r w ≡ (ok tt, w)
unfolding check_blocklist check_address refuse_listed ◌>>=◌
blocklist_passes env r w tl fl = rw (tl, fl) refl

status_passes :
    (env : Env) (r : TransferRequest) (w : World)
    → is_failed r.blockchain_status ≡ true
    → check_status env r w ≡ (ok tt, w)
unfolding check_status
status_passes env r w failed = ground arith

-- The checks that such a request passes.
retry_found_checks :
    (env : Env) (i sig : String) (r : TransferRequest) (w : World)
    → is_rejected r.compliance_status ≡ false
    → check_in w.blocklist r.to_address ≡ none
    → check_in w.blocklist r.from_address ≡ none
    → is_failed r.blockchain_status ≡ true
    → is_jito_state_unknown r.last_error_type ≡ true
    → r.original_tx_signature ≡ some sig
    → retry_found env i r w
      ≡ on_retry_status env i r sig
          (env.get_signature_status w.tick sig)
          (record w { tick = suc w.tick })
unfolding retry_found retry_original
retry_found_checks env i sig r w c tl fl failed unknown original =
    bind-ok (check_rejection env i r) _ (rejection_passes env i r w c)
    ∙ bind-ok (check_blocklist env r) _ (blocklist_passes env r w tl fl)
    ∙ bind-ok (check_status env r) (λ _. last) (status_passes env r w failed)
    ∙ chosen
  where
    last : Action TransferRequest
    last =
        if is_jito_state_unknown r.last_error_type
        then retry_original env i r r.original_tx_signature
        else resubmit env i r

    chosen :
        last w
        ≡ on_retry_status env i r sig
            (env.get_signature_status w.tick sig)
            (record w { tick = suc w.tick })
    chosen = simp (unknown, original) refl

-- A stored request that failed after an unknown Jito outcome, with an original transaction, not
-- rejected by compliance and with neither address listed: when the database answers, and the query
-- of the original transaction fails or does not find it, the manual retry submits the request
-- again, whatever the blockhash of the original transaction.
pub retry_resubmits_unverified :
    (env : Env) (i sig : String) (r : TransferRequest) (w : World)
    → ((n : ℕ) → env.fault n ≡ none)
    → find i w.transfers ≡ some r
    → is_rejected r.compliance_status ≡ false
    → check_in w.blocklist r.to_address ≡ none
    → check_in w.blocklist r.from_address ≡ none
    → is_failed r.blockchain_status ≡ true
    → is_jito_state_unknown r.last_error_type ≡ true
    → r.original_tx_signature ≡ some sig
    → IsInconclusive (env.get_signature_status (suc w.tick) sig)
    → (retry_blockchain_submission env i w).1.submissions ≡ r ∷ w.submissions
unfolding retry_blockchain_submission get_transfer_request statement ◌>>=◌
retry_resubmits_unverified env i sig r w up found c tl fl failed unknown original h =
    rw (up w.tick, found)
      (ap (λ p. p.1.submissions)
          (retry_found_checks env i sig r (record w { tick = suc w.tick }) c tl fl failed unknown
            original)
        ∙ on_retry_status_resubmits env i r sig _ _ up h)
