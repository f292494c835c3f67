-- ===== src/System/Resubmission.antt =====
-- The manual retry of src/app/service.rs keeps the tables sound: it refuses what is not screened.
use solana_compliance_relaye.Prelude.{
  ℕ, ◌≡◌, refl, Bool, true, false, Option, none, some, List, [], ◌∷◌, String, eq_iff, ◌⊎◌, inl, inr,
  arith,
}
use solana_compliance_relaye.Domain.Status.{TransactionStatus, is_jito_state_unknown}
use solana_compliance_relaye.Domain.Transfer.{TransferRequest}
use solana_compliance_relaye.Runtime.{Env, World, Result, ok, err, ok_or, not_found, ◌>>=◌}
use solana_compliance_relaye.Runtime.Keeps.{
  Keeps, IsQuiet, keeps_rules, Keeps-bind, Keeps-if, Keeps-pure,
}
use solana_compliance_relaye.Runtime.Fails.{Fails, Fails-left, Fails-right}
use solana_compliance_relaye.Database.Table.{find}
use solana_compliance_relaye.Database.Gives.{Gives, Gives-to, Gives-statement}
use solana_compliance_relaye.Database.Transfers.{get_transfer_request}
use solana_compliance_relaye.Service.Retry.{
  clear_rejection, check_rejection, check_blocklist, check_status, refuse_listed, retry_found,
  retry_blockchain_submission, on_retry_result, resubmit, retry_settled, retry_forgotten,
  on_retry_status, retry_original,
}
use solana_compliance_relaye.Service.RetryGate.{check_status-Fails}
use solana_compliance_relaye.System.Screened.{
  IsSound, WaitsForScreening, is_received, Shows, IsSound-quiet, IsSound-tail, IsSound-learn,
}
use solana_compliance_relaye.System.Statements.{
  update_compliance_status-IsSound, update_jito_tracking-IsSound,
}
use solana_compliance_relaye.System.Rounds.{
  sound_rules, after_failure-IsSound, get_signature_status-IsSound, submit_transaction-IsSound,
}

module _ {known : List String} (env : Env) where
  clear_rejection-IsSound :
      (i : String) (r : TransferRequest) (a b : Bool)
      → Keeps (IsSound known) (clear_rejection env i r a b)
  unfolding clear_rejection
  clear_rejection-IsSound i r true true = search keeps_rules
  clear_rejection-IsSound i r true false = update_compliance_status-IsSound env i _ refl
  clear_rejection-IsSound i r false b = search keeps_rules

  check_rejection-IsSound :
      (i : String) (r : TransferRequest) → Keeps (IsSound known) (check_rejection env i r)
  unfolding check_rejection
  check_rejection-IsSound i r = search (keeps_rules, clear_rejection-IsSound)

  refuse_listed-IsSound :
      (field who : String) (o : Option String)
      → Keeps (IsSound known) (refuse_listed env field who o)
  unfolding refuse_listed
  refuse_listed-IsSound field who none = Keeps-pure tt
  refuse_listed-IsSound field who (some e) = search keeps_rules

  check_blocklist-IsSound : (r : TransferRequest) → Keeps (IsSound known) (check_blocklist env r)
  unfolding check_blocklist
  check_blocklist-IsSound r = search (keeps_rules, refuse_listed-IsSound)

  check_status-IsSound : (r : TransferRequest) → Keeps (IsSound known) (check_status env r)
  unfolding check_status
  check_status-IsSound r = search keeps_rules

module _ {known : List String} (env : Env) (i : String) (r : TransferRequest)
    (at_key : Shows known i) (at_row : Shows known r.id) where
  on_retry_result-IsSound :
      (a : Result (String × String)) → Keeps (IsSound known) (on_retry_result env i r a)
  unfolding on_retry_result
  on_retry_result-IsSound (ok (sig, hash)) = search (keeps_rules, sound_rules)
  on_retry_result-IsSound (err e) =
      search (keeps_rules, sound_rules, after_failure-IsSound) depth 14

  resubmit-IsSound : Keeps (IsSound known) (resubmit env i r)
  unfolding resubmit
  resubmit-IsSound = Keeps-bind (submit_transaction-IsSound env r at_row) on_retry_result-IsSound

  retry_forgotten-IsSound : Keeps (IsSound known) (retry_forgotten env i r)
  unfolding retry_forgotten
  retry_forgotten-IsSound =
      Keeps-bind (update_jito_tracking-IsSound env i _ _ _) (λ _. resubmit-IsSound)

  retry_settled-IsSound : (sig : String) → Keeps (IsSound known) (retry_settled env i r sig)
  unfolding retry_settled
  retry_settled-IsSound sig = search (keeps_rules, sound_rules)

  on_retry_status-IsSound :
      (sig : String) (a : Result (Option TransactionStatus))
      → Keeps (IsSound known) (on_retry_status env i r sig a)
  unfolding on_retry_status
  on_retry_status-IsSound sig (ok (some TransactionStatus.confirmed)) = retry_settled-IsSound sig
  on_retry_status-IsSound sig (ok (some TransactionStatus.finalized)) = retry_settled-IsSound sig
  on_retry_status-IsSound sig (ok (some (TransactionStatus.failed e))) = retry_forgotten-IsSound
  on_retry_status-IsSound sig (ok none) = retry_forgotten-IsSound
  on_retry_status-IsSound sig (err e) = resubmit-IsSound

  retry_original-IsSound : (o : Option String) → Keeps (IsSound known) (retry_original env i r o)
  unfolding retry_original
  retry_original-IsSound none = resubmit-IsSound
  retry_original-IsSound (some sig) =
      Keeps-bind (get_signature_status-IsSound env sig) (on_retry_status-IsSound sig)

  -- The retry of a screened request.
  retry_found-IsSound : Keeps (IsSound known) (retry_found env i r)
  unfolding retry_found
  retry_found-IsSound = Keeps-bind (check_rejection-IsSound env i r) (λ _.
      Keeps-bind (check_blocklist-IsSound env r) (λ _. Keeps-bind (check_status-IsSound env r) (λ _.
        Keeps-if (is_jito_state_unknown r.last_error_type)
          (retry_original-IsSound r.original_tx_signature) resubmit-IsSound)))

-- The retry of a request that has only been received fails.
retry_found-Fails_received :
    (env : Env) (i : String) (r : TransferRequest)
    → is_received r.blockchain_status ≡ true
    → Fails (IsSound []) (retry_found env i r)
unfolding retry_found
retry_found-Fails_received env i r e = Fails-right (check_rejection-IsSound env i r) (λ _.
    Fails-right (check_blocklist-IsSound env r)
      (λ _. Fails-left _ (check_status-Fails env r (ground arith) (ground arith))))

find_id :
    (i : String) (rows : List TransferRequest) (r : TransferRequest)
    → find i rows ≡ some r
    → r.id ≡ i
unfolding find
find_id i [] r e = ground arith
find_id i (q ∷ rows) r e = ground (arith, eq_iff q.id i, find_id i rows r)

-- What a lookup by key gives: a row of that key, which is known to be screened or only received.
abbrev Reads : String → Option TransferRequest → World → Type 0
Reads i none w = IsSound [] w
Reads i (some r) w =
    IsSound [] w × (r.id ≡ i) × (IsSound (i ∷ []) w ⊎ (is_received r.blockchain_status ≡ true))

module _ (env : Env) (i : String) where
  read-Gives : Gives (IsSound []) (get_transfer_request env i) (Reads i)
  unfolding get_transfer_request
  read-Gives =
      Gives-statement env _ _ (IsSound-quiet []) quiet λ now w h. go w (find i w.transfers) refl h
    where
      stays :
          (r : TransferRequest) (w : World) (n : ℕ)
          → IsSound (i ∷ []) w ⊎ (is_received r.blockchain_status ≡ true)
          → IsSound (i ∷ []) (record w { tick = n }) ⊎ (is_received r.blockchain_status ≡ true)
      stays r w n (inl h) = inl (IsSound-quiet (i ∷ []) w n h)
      stays r w n (inr e) = inr e

      quiet : (o : Option TransferRequest) → IsQuiet (Reads i o)
      quiet none w n h = IsSound-quiet [] w n h
      quiet (some r) w n (h, k, c) = (IsSound-quiet [] w n h, k, stays r w n c)

      learn :
          (w : World) (r : TransferRequest)
          → find i w.transfers ≡ some r
          → IsSound [] w
          → WaitsForScreening r
          → IsSound (i ∷ []) w ⊎ (is_received r.blockchain_status ≡ true)
      learn w r e h (inl c) = inl (IsSound-learn i w (r, e, c) h)
      learn w r e h (inr c) = inr c

      go :
          (w : World) (o : Option TransferRequest)
          → find i w.transfers ≡ o
          → IsSound [] w
          → Reads i o w
      go w none e h = h
      go w (some r) e h = (h, find_id i w.transfers r e, learn w r e h (h.rows i r e))

  retry_read :
      (r : TransferRequest) (w : World) → Reads i (some r) w → IsSound [] (retry_found env i r w).1
  retry_read r w (h, k, inl s) =
      IsSound-tail _ ((retry_found-IsSound env i r (λ rows a. a.0) (λ rows a. rw k a.0)).at w s)
  retry_read r w (h, k, inr e) = ((retry_found-Fails_received env i r e).at w h).1

  -- The manual retry keeps the tables sound.
  pub manual_retry-IsSound : Keeps (IsSound []) (retry_blockchain_submission env i)
  unfolding retry_blockchain_submission ok_or
  manual_retry-IsSound = Gives-to _ read-Gives after
    where
      after :
          (o : Option TransferRequest) (w : World)
          → Reads i o w
          → IsSound [] ((ok_or (not_found i) o >>= retry_found env i) w).1
      after none w h = h
      after (some r) w h = retry_read r w h
