-- ===== src/System/Rounds.antt =====
-- The worker's and the crank's rounds of src/app/service.rs keep the tables sound.
use solana_compliance_relaye.Prelude.{
  ℕ, Bool, true, false, Option, none, some, List, [], ◌∷◌, String, All, All-weaken,
}
use solana_compliance_relaye.Domain.Status.{
  LastErrorType, TransactionStatus, is_approved, is_jito_state_unknown,
}
use solana_compliance_relaye.Domain.Transfer.{TransferRequest}
use solana_compliance_relaye.Runtime.{Env, Result, ok, err}
use solana_compliance_relaye.Runtime.Keeps.{
  Keeps, keeps_rules, Keeps-bind, Keeps-if, Keeps-pure, Keeps-attempt,
}
use solana_compliance_relaye.Database.Gives.{Gives-then}
use solana_compliance_relaye.Service.Backoff.{after_failure}
use solana_compliance_relaye.Service.Dispatch.{
  or_false, on_submitted, dispatch, reschedule, settle_original, forget_original, on_blockhash,
  on_not_found, on_original_status, check_original, process_single_submission, get_signature_status,
  is_blockhash_valid, submit_transaction, process_each, process_pending_submissions,
}
use solana_compliance_relaye.Service.Crank.{
  on_stale_blockhash, handle_not_found_transaction, on_stale_status, check_stale_signature,
  check_stale_transaction_status, check_each, process_stale_submitted_transactions,
}
use solana_compliance_relaye.System.Screened.{
  IsSound, IsScreened, Shows, IsSound-quiet, IsSound-drop,
}
use solana_compliance_relaye.System.Statements.{
  update_blockchain_status-IsSound, update_compliance_status-IsSound, increment_retry_count-IsSound,
  update_jito_tracking-IsSound,
}
use solana_compliance_relaye.System.Batches.{ids, claim-Gives, stale-Gives}

pub ruleset sound_rules = (
  IsSound-quiet, update_blockchain_status-IsSound, update_compliance_status-IsSound,
  increment_retry_count-IsSound, update_jito_tracking-IsSound,
)

module _ {known : List String} (env : Env) where
  pub after_failure-IsSound : (n : ℕ) → Keeps (IsSound known) (after_failure env n)
  unfolding after_failure
  after_failure-IsSound n = search (keeps_rules, IsSound-quiet)

  pub get_signature_status-IsSound :
      (sig : String) → Keeps (IsSound known) (get_signature_status env sig)
  unfolding get_signature_status
  get_signature_status-IsSound sig = search (keeps_rules, IsSound-quiet)

  pub is_blockhash_valid-IsSound :
      (hash : String) → Keeps (IsSound known) (is_blockhash_valid env hash)
  unfolding is_blockhash_valid
  is_blockhash_valid-IsSound hash = search (keeps_rules, IsSound-quiet)

  -- What is handed to the blockchain client is screened.
  pub submit_transaction-IsSound :
      (r : TransferRequest) → Shows known r.id → Keeps (IsSound known) (submit_transaction env r)
  unfolding submit_transaction
  submit_transaction-IsSound r show = record {
    at = λ w h. record {
      unique = h.unique;
      rows = h.rows;
      handed = (show w.transfers h.shown, h.handed);
      shown = h.shown;
    };
  }

module _ {known : List String} (env : Env) (r : TransferRequest) (show : Shows known r.id) where
  on_submitted-IsSound :
      (a : Result (String × String)) → Keeps (IsSound known) (on_submitted env r a)
  unfolding on_submitted
  on_submitted-IsSound (ok (sig, hash)) = search (keeps_rules, sound_rules)
  on_submitted-IsSound (err e) = search (keeps_rules, sound_rules, after_failure-IsSound) depth 12

  dispatch-IsSound : Keeps (IsSound known) (dispatch env r)
  unfolding dispatch
  dispatch-IsSound = Keeps-bind (submit_transaction-IsSound env r show) on_submitted-IsSound

  reschedule-IsSound : (m : String) → Keeps (IsSound known) (reschedule env r m)
  unfolding reschedule
  reschedule-IsSound m = search (keeps_rules, sound_rules) depth 8

  settle_original-IsSound : (sig : String) → Keeps (IsSound known) (settle_original env r sig)
  unfolding settle_original
  settle_original-IsSound sig = search (keeps_rules, sound_rules)

  forget_original-IsSound :
      (kind : LastErrorType) → Keeps (IsSound known) (forget_original env r kind)
  unfolding forget_original
  forget_original-IsSound kind =
      Keeps-bind (update_jito_tracking-IsSound env r.id none kind none) (λ _. dispatch-IsSound)

  on_not_found-IsSound : (o : Option String) → Keeps (IsSound known) (on_not_found env r o)
  unfolding on_not_found on_blockhash
  on_not_found-IsSound none = forget_original-IsSound _
  on_not_found-IsSound (some hash) =
      Keeps-bind (is_blockhash_valid-IsSound env hash) (λ a. go (or_false a))
    where
      go : (b : Bool) → Keeps (IsSound known) (on_blockhash env r b)
      go true = reschedule-IsSound _
      go false = forget_original-IsSound _

  on_original-IsSound :
      (sig : String) (a : Result (Option TransactionStatus))
      → Keeps (IsSound known) (on_original_status env r sig a)
  unfolding on_original_status
  on_original-IsSound sig (ok (some TransactionStatus.confirmed)) = settle_original-IsSound sig
  on_original-IsSound sig (ok (some TransactionStatus.finalized)) = settle_original-IsSound sig
  on_original-IsSound sig (ok (some (TransactionStatus.failed e))) = forget_original-IsSound _
  on_original-IsSound sig (ok none) = on_not_found-IsSound r.blockhash_used
  on_original-IsSound sig (err e) = reschedule-IsSound _

  check_original-IsSound : (o : Option String) → Keeps (IsSound known) (check_original env r o)
  unfolding check_original
  check_original-IsSound none = dispatch-IsSound
  check_original-IsSound (some sig) =
      Keeps-bind (get_signature_status-IsSound env sig) (on_original-IsSound sig)

  process_single-IsSound : Keeps (IsSound known) (process_single_submission env r)
  unfolding process_single_submission
  process_single-IsSound =
      Keeps-if (is_approved r.compliance_status)
        (Keeps-if (is_jito_state_unknown r.last_error_type)
          (check_original-IsSound r.original_tx_signature) dispatch-IsSound)
        (Keeps-pure tt)

  on_stale_status-IsSound :
      (sig : String) (a : Result (Option TransactionStatus))
      → Keeps (IsSound known) (on_stale_status env r sig a)
  unfolding on_stale_status on_stale_blockhash handle_not_found_transaction
  on_stale_status-IsSound sig (ok (some TransactionStatus.confirmed)) = search sound_rules
  on_stale_status-IsSound sig (ok (some TransactionStatus.finalized)) = search sound_rules
  on_stale_status-IsSound sig (ok (some (TransactionStatus.failed e))) = search sound_rules
  on_stale_status-IsSound sig (ok none) = not_found r.blockhash_used
    where
      undecided :
          (hash : String) (a : Result Bool)
          → Keeps (IsSound known) (on_stale_blockhash env r sig hash a)
      undecided hash (ok true) = Keeps-pure tt
      undecided hash (ok false) = search sound_rules
      undecided hash (err e) = Keeps-pure tt

      not_found :
          (o : Option String) → Keeps (IsSound known) (handle_not_found_transaction env r sig o)
      not_found none = Keeps-pure tt
      not_found (some hash) = Keeps-bind (is_blockhash_valid-IsSound env hash) (undecided hash)
  on_stale_status-IsSound sig (err e) = Keeps-pure tt

  check_stale-IsSound : (o : Option String) → Keeps (IsSound known) (check_stale_signature env r o)
  unfolding check_stale_signature
  check_stale-IsSound none = search sound_rules
  check_stale-IsSound (some sig) =
      Keeps-bind (get_signature_status-IsSound env sig) (on_stale_status-IsSound sig)

-- A batch of which every key is known.
ids_show : (rs : List TransferRequest) → All (λ r. Shows (ids rs) r.id) rs
ids_show [] = tt
ids_show (r ∷ rs) = (λ rows h. h.0, All-weaken _ _ rs (λ q s rows h. s rows h.1) (ids_show rs))

module _ {known : List String} (env : Env) where
  process_each-IsSound :
      (rs : List TransferRequest)
      → All (λ r. Shows known r.id) rs
      → Keeps (IsSound known) (process_each env rs)
  unfolding process_each
  process_each-IsSound [] h = Keeps-pure tt
  process_each-IsSound (r ∷ rs) h =
      Keeps-bind (Keeps-attempt (process_single-IsSound env r h.0))
        (λ _. process_each-IsSound rs h.1)

  check_each-IsSound :
      (rs : List TransferRequest)
      → All (λ r. Shows known r.id) rs
      → Keeps (IsSound known) (check_each env rs)
  unfolding check_each check_stale_transaction_status
  check_each-IsSound [] h = Keeps-pure tt
  check_each-IsSound (r ∷ rs) h =
      Keeps-bind (Keeps-attempt (check_stale-IsSound env r h.0 r.blockchain_signature))
        (λ _. check_each-IsSound rs h.1)

module _ (env : Env) where
  pub worker_round-IsSound :
      (batch_size : ℕ) → Keeps (IsSound []) (process_pending_submissions env batch_size)
  unfolding process_pending_submissions
  worker_round-IsSound batch_size =
      Gives-then (claim-Gives env batch_size)
        (λ batch. Keeps-bind (process_each-IsSound env batch (ids_show batch)) (λ _. Keeps-pure _))
        (λ batch v h. IsSound-drop v h)

  pub crank_round-IsSound :
      (older_than batch_size : ℕ)
      → Keeps (IsSound []) (process_stale_submitted_transactions env older_than batch_size)
  unfolding process_stale_submitted_transactions
  crank_round-IsSound older_than batch_size =
      Gives-then (stale-Gives env older_than batch_size)
        (λ batch. Keeps-bind (check_each-IsSound env batch (ids_show batch)) (λ _. Keeps-pure _))
        (λ batch v h. IsSound-drop v h)
