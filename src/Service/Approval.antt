-- ===== src/Service/Approval.antt =====
-- What a round of the worker of src/app/service.rs hands to the blockchain client.
use solana_compliance_relaye.Prelude.{
  ℕ, ◌≡◌, inl, inr, Bool, true, false, Option, none, some, List, [], ◌∷◌, String, All, Bool-cases,
}
use solana_compliance_relaye.Domain.Status.{
  LastErrorType, TransactionStatus, is_approved, is_jito_state_unknown,
}
use solana_compliance_relaye.Domain.Transfer.{TransferRequest}
use solana_compliance_relaye.Runtime.{Env, World, Result, ok, err}
use solana_compliance_relaye.Runtime.Keeps.{
  Keeps, keeps_rules, Keeps-bind, Keeps-if, Keeps-pure, Keeps-attempt,
}
use solana_compliance_relaye.Database.Log.{OnLog, log_rules, update_jito_tracking-OnLog}
use solana_compliance_relaye.Service.Dispatch.{
  or_false, dispatch, forget_original, on_blockhash, on_not_found, on_original_status,
  check_original, process_single_submission, process_each, process_pending_submissions,
}
use solana_compliance_relaye.Service.Gate.{
  get_signature_status-OnLog, is_blockhash_valid-OnLog, on_submitted-OnLog, reschedule-OnLog,
  settle_original-OnLog,
}

module _ {Q : List TransferRequest → Type 0} (env : Env) (r : TransferRequest) where
  dispatch-OnLog : ((l : List TransferRequest) → Q l → Q (r ∷ l)) → Keeps (OnLog Q) (dispatch env r)
  unfolding dispatch
  dispatch-OnLog add = record {
    at = λ w h.
        (on_submitted-OnLog env r (env.submit_transaction w.tick r)).at _
          (record { log = add w.submissions h.log });
  }

  module _ (add : (l : List TransferRequest) → Q l → Q (r ∷ l)) where
    forget_original-OnLog : (kind : LastErrorType) → Keeps (OnLog Q) (forget_original env r kind)
    unfolding forget_original
    forget_original-OnLog kind =
        Keeps-bind (update_jito_tracking-OnLog env r.id none kind none) (λ _. dispatch-OnLog add)

    on_not_found-OnLog : (o : Option String) → Keeps (OnLog Q) (on_not_found env r o)
    unfolding on_not_found on_blockhash
    on_not_found-OnLog none = forget_original-OnLog _
    on_not_found-OnLog (some hash) =
        Keeps-bind (is_blockhash_valid-OnLog env hash) (λ a. go (or_false a))
      where
        go : (b : Bool) → Keeps (OnLog Q) (on_blockhash env r b)
        go true = reschedule-OnLog env r _
        go false = forget_original-OnLog _

    on_original-OnLog :
        (sig : String) (a : Result (Option TransactionStatus))
        → Keeps (OnLog Q) (on_original_status env r sig a)
    unfolding on_original_status
    on_original-OnLog sig (ok (some TransactionStatus.confirmed)) = settle_original-OnLog env r sig
    on_original-OnLog sig (ok (some TransactionStatus.finalized)) = settle_original-OnLog env r sig
    on_original-OnLog sig (ok (some (TransactionStatus.failed e))) = forget_original-OnLog _
    on_original-OnLog sig (ok none) = on_not_found-OnLog r.blockhash_used
    on_original-OnLog sig (err e) = reschedule-OnLog env r _

    check_original-OnLog : (o : Option String) → Keeps (OnLog Q) (check_original env r o)
    unfolding check_original
    check_original-OnLog none = dispatch-OnLog add
    check_original-OnLog (some sig) =
        Keeps-bind (get_signature_status-OnLog env sig) (on_original-OnLog sig)

  pub process_single-OnLog :
      (is_approved r.compliance_status ≡ true → (l : List TransferRequest) → Q l → Q (r ∷ l))
      → Keeps (OnLog Q) (process_single_submission env r)
  unfolding process_single_submission
  process_single-OnLog add = elim (Bool-cases (is_approved r.compliance_status)) [
    | inl a ↦ simp a (
        Keeps-if (is_jito_state_unknown r.last_error_type)
          (check_original-OnLog (add a) r.original_tx_signature) (dispatch-OnLog (add a)))
    | inr a ↦ simp a (Keeps-pure tt)
  ]

abbrev pub IsApproved : TransferRequest → Type 0
IsApproved r = is_approved r.compliance_status ≡ true

process_each-OnLog :
    (env : Env) (rs : List TransferRequest) → Keeps (OnLog (All IsApproved)) (process_each env rs)
unfolding process_each
process_each-OnLog env [] = Keeps-pure tt
process_each-OnLog env (r ∷ rs) =
    Keeps-bind (Keeps-attempt (process_single-OnLog env r (λ a l h. (a, h))))
      (λ _. process_each-OnLog env rs)

-- The worker hands over approved requests only: if every submission so far was of an approved
-- request, so is every one after a round.
pub worker_submits-IsApproved :
    (env : Env) (limit : ℕ) (w : World)
    → All IsApproved w.submissions
    → All IsApproved (process_pending_submissions env limit w).1.submissions
unfolding process_pending_submissions
worker_submits-IsApproved env limit w h = (round.at w (record { log = h })).log
  where
    round : Keeps (OnLog (All IsApproved)) (process_pending_submissions env limit)
    round = search (keeps_rules, log_rules, process_each-OnLog)
