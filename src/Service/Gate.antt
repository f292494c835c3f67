-- ===== src/Service/Gate.antt =====
-- When the worker of src/app/service.rs hands a request to the blockchain client.
use solana_compliance_relaye.Prelude.{
  ℕ, suc, ◌≡◌, refl, inl, inr, Bool, true, false, Option, none, some, List, ◌∷◌, String, Bool-cases,
}
use solana_compliance_relaye.Domain.Status.{
  LastErrorType, TransactionStatus, is_approved, is_jito_state_unknown,
}
use solana_compliance_relaye.Domain.Transfer.{TransferRequest}
use solana_compliance_relaye.Runtime.{Env, World, Result, ok, err}
use solana_compliance_relaye.Runtime.Keeps.{Keeps, keeps_rules}
use solana_compliance_relaye.Database.Log.{OnLog, OnLog-quiet, fixed, log_rules}
use solana_compliance_relaye.Database.Statement.{statement}
use solana_compliance_relaye.Database.Transfers.{update_jito_tracking}
use solana_compliance_relaye.Service.Backoff.{after_failure}
use solana_compliance_relaye.Service.Dispatch.{
  or_false, on_submitted, dispatch, reschedule, settle_original, forget_original, on_blockhash,
  on_not_found, on_original_status, check_original, process_single_submission, get_signature_status,
  is_blockhash_valid,
}

module _ {Q : List TransferRequest → Type 0} (env : Env) where
  pub after_failure-OnLog : (n : ℕ) → Keeps (OnLog Q) (after_failure env n)
  unfolding after_failure
  after_failure-OnLog n = search (keeps_rules, OnLog-quiet)

  pub get_signature_status-OnLog : (sig : String) → Keeps (OnLog Q) (get_signature_status env sig)
  unfolding get_signature_status
  get_signature_status-OnLog sig = search (keeps_rules, OnLog-quiet)

  pub is_blockhash_valid-OnLog : (hash : String) → Keeps (OnLog Q) (is_blockhash_valid env hash)
  unfolding is_blockhash_valid
  is_blockhash_valid-OnLog hash = search (keeps_rules, OnLog-quiet)

  pub on_submitted-OnLog :
      (r : TransferRequest) (a : Result (String × String)) → Keeps (OnLog Q) (on_submitted env r a)
  unfolding on_submitted
  on_submitted-OnLog r (ok (sig, hash)) = search (keeps_rules, log_rules)
  on_submitted-OnLog r (err e) = search (keeps_rules, log_rules, after_failure-OnLog) depth 12

  pub reschedule-OnLog : (r : TransferRequest) (m : String) → Keeps (OnLog Q) (reschedule env r m)
  unfolding reschedule
  reschedule-OnLog r m = search (keeps_rules, log_rules) depth 8

  pub settle_original-OnLog :
      (r : TransferRequest) (sig : String) → Keeps (OnLog Q) (settle_original env r sig)
  unfolding settle_original
  settle_original-OnLog r sig = search (keeps_rules, log_rules)

-- `dispatch` makes exactly one submission, of its request.
pub dispatch_submits :
    (env : Env) (r : TransferRequest) (w : World)
    → (dispatch env r w).1.submissions ≡ r ∷ w.submissions
unfolding dispatch
dispatch_submits env r w = fixed (on_submitted-OnLog env r (env.submit_transaction w.tick r)) _ refl

-- The answers after which the worker takes the original transaction for lost: it failed on chain, or
-- it is unknown there and its blockhash is missing, invalid or of unknown validity.
abbrev pub IsTakenForLost :
    Result (Option TransactionStatus) → Option String → (String → Result Bool) → Type 0
IsTakenForLost (ok (some (TransactionStatus.failed _))) hash valid = Unit
IsTakenForLost (ok none) none valid = Unit
IsTakenForLost (ok none) (some h) valid = or_false (valid h) ≡ false
IsTakenForLost _ hash valid = ⊥

module _ (env : Env) (r : TransferRequest) where
  on_not_found_waits :
      (o : Option String) (w : World)
      → ¬ IsTakenForLost (ok none) o (env.is_blockhash_valid w.tick)
      → (on_not_found env r o w).1.submissions ≡ w.submissions
  unfolding on_not_found on_blockhash
  on_not_found_waits none w h = absurd (h tt)
  on_not_found_waits (some hash) w h =
      elim (Bool-cases (or_false (env.is_blockhash_valid w.tick hash))) [
        | inl e ↦ rw e (fixed (reschedule-OnLog env r _) _ refl)
        | inr e ↦ absurd (h e)
      ]

  on_original_waits :
      (sig : String) (a : Result (Option TransactionStatus)) (w : World)
      → ¬ IsTakenForLost a r.blockhash_used (env.is_blockhash_valid w.tick)
      → (on_original_status env r sig a w).1.submissions ≡ w.submissions
  unfolding on_original_status
  on_original_waits sig (ok (some TransactionStatus.confirmed)) w h =
      fixed (settle_original-OnLog env r sig) w refl
  on_original_waits sig (ok (some TransactionStatus.finalized)) w h =
      fixed (settle_original-OnLog env r sig) w refl
  on_original_waits sig (ok (some (TransactionStatus.failed e))) w h = absurd (h tt)
  on_original_waits sig (ok none) w h = on_not_found_waits r.blockhash_used w h
  on_original_waits sig (err e) w h = fixed (reschedule-OnLog env r _) w refl

-- After an unknown Jito outcome with a stored original transaction, the worker submits nothing unless
-- it takes that transaction for lost: nothing when it landed, when the query of its status failed,
-- or when it is not found and its blockhash is still valid.
pub double_spend_guard :
    (env : Env) (r : TransferRequest) (sig : String) (w : World)
    → is_jito_state_unknown r.last_error_type ≡ true
    → r.original_tx_signature ≡ some sig
    → ¬ IsTakenForLost
        (env.get_signature_status w.tick sig)
        r.blockhash_used
        (env.is_blockhash_valid (suc w.tick))
    → (process_single_submission env r w).1.submissions ≡ w.submissions
unfolding process_single_submission check_original
double_spend_guard env r sig w unknown original h =
    elim (Bool-cases (is_approved r.compliance_status)) [
      | inl a ↦ simp (a, unknown, original) (on_original_waits env r sig _ _ h)
      | inr a ↦ simp a
    ]

-- An approved request with no stored original transaction is submitted anew with no check, also after
-- an unknown Jito outcome.
pub untracked_resubmits :
    (env : Env) (r : TransferRequest) (w : World)
    → is_approved r.compliance_status ≡ true
    → r.original_tx_signature ≡ none
    → (process_single_submission env r w).1.submissions ≡ r ∷ w.submissions
unfolding process_single_submission check_original
untracked_resubmits env r w a none_tracked =
    elim (Bool-cases (is_jito_state_unknown r.last_error_type)) [
      | inl u ↦ simp (a, u, none_tracked) (dispatch_submits env r w)
      | inr u ↦ simp (a, u) (dispatch_submits env r w)
    ]

forget_original_submits :
    (env : Env) (r : TransferRequest) (kind : LastErrorType) (w : World)
    → env.fault w.tick ≡ none
    → (forget_original env r kind w).1.submissions ≡ r ∷ w.submissions
unfolding forget_original update_jito_tracking statement
forget_original_submits env r kind w e = rw e (dispatch_submits env r _)

module _ (env : Env) (r : TransferRequest) where
  on_not_found_submits :
      (o : Option String) (w : World)
      → ((n : ℕ) → env.fault n ≡ none)
      → IsTakenForLost (ok none) o (env.is_blockhash_valid w.tick)
      → (on_not_found env r o w).1.submissions ≡ r ∷ w.submissions
  unfolding on_not_found on_blockhash
  on_not_found_submits none w up h = forget_original_submits env r _ w (up w.tick)
  on_not_found_submits (some hash) w up h =
      rw h (forget_original_submits env r _ _ (up (suc w.tick)))

  on_original_submits :
      (sig : String) (a : Result (Option TransactionStatus)) (w : World)
      → ((n : ℕ) → env.fault n ≡ none)
      → IsTakenForLost a r.blockhash_used (env.is_blockhash_valid w.tick)
      → (on_original_status env r sig a w).1.submissions ≡ r ∷ w.submissions
  unfolding on_original_status
  on_original_submits sig (ok (some TransactionStatus.confirmed)) w up h = absurd h
  on_original_submits sig (ok (some TransactionStatus.finalized)) w up h = absurd h
  on_original_submits sig (ok (some (TransactionStatus.failed e))) w up h =
      forget_original_submits env r _ w (up w.tick)
  on_original_submits sig (ok none) w up h = on_not_found_submits r.blockhash_used w up h
  on_original_submits sig (err e) w up h = absurd h

-- An approved request whose stored original transaction, after an unknown Jito outcome, is taken for
-- lost is submitted anew, exactly once, when the database answers.
pub resubmits_when_lost :
    (env : Env) (r : TransferRequest) (sig : String) (w : World)
    → ((n : ℕ) → env.fault n ≡ none)
    → is_approved r.compliance_status ≡ true
    → is_jito_state_unknown r.last_error_type ≡ true
    → r.original_tx_signature ≡ some sig
    → IsTakenForLost
        (env.get_signature_status w.tick sig)
        r.blockhash_used
        (env.is_blockhash_valid (suc w.tick))
    → (process_single_submission env r w).1.submissions ≡ r ∷ w.submissions
unfolding process_single_submission check_original
resubmits_when_lost env r sig w up a unknown original h =
    simp (a, unknown, original) (on_original_submits env r sig _ _ up h)
