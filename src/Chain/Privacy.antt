-- ===== src/Chain/Privacy.antt =====
-- The guarantees of the private submission in src/infra/blockchain/quicknode.rs.
use solana_compliance_relaye.Prelude.{
  ◌≡◌, refl, ◌⊎◌, inl, inr, Bool, true, false, not, ◌||◌, Option, none, some, String, [], ◌∷◌, All,
  List, ℤ, negsuc, int_eq, lower_contains, leb, ltb, ◌&&◌, sym, arith,
}
use solana_compliance_relaye.Domain.Status.{requires_status_check, safe_to_retry_new_blockhash}
use solana_compliance_relaye.Domain.Error.{classify_error, classify_blockchain}
use solana_compliance_relaye.Runtime.{Result, ok, err}
use solana_compliance_relaye.Chain.Wire.{extract_signature_from_serialized_tx}
use solana_compliance_relaye.Chain.Jito.{
  HttpError, HttpOutcome, JitoError, RpcReply, Request, Node, QuickNodeSubmissionConfig, Sent,
  is_server_error, is_method_missing, is_definite_rejection, on_jito_error, on_bundle_reply,
  on_bundle_body, on_send_error, or_empty, bundle_result, submit_jito_bundle, submit_signed,
  strategy_submit, with_signature,
}

-- A submission that only ever sent the bundle, and whose success reports the given signature.
abbrev pub IsPrivate : String → Option String → Result String → Sent → Type 0
IsPrivate tx region signature (ok s, requests) =
    (signature ≡ ok s) × All (λ q. q ≡ Request.send_bundle tx region) requests
IsPrivate tx region signature (err e, requests) =
    All (λ q. q ≡ Request.send_bundle tx region) requests

-- With bundles switched on, whatever the node answers: no request but the bundle is sent, so that the
-- transaction never goes out by `sendTransaction`, and a success reports the first signature of the
-- transaction, not the bundle's id.
pub strategy_submit-IsPrivate :
    (node : Node) (config : QuickNodeSubmissionConfig) (tx : String) (skip_preflight : Bool)
    → config.enable_jito_bundles ≡ true
    → IsPrivate tx config.region
        (extract_signature_from_serialized_tx node.bs58_decode node.bs58_encode tx)
        (strategy_submit node config tx skip_preflight)
unfolding strategy_submit submit_signed submit_jito_bundle
strategy_submit-IsPrivate node config tx skip_preflight on =
    by_signature (extract_signature_from_serialized_tx node.bs58_decode node.bs58_encode tx)
  where
    by_result :
        (signature : String) (r : Result String)
        → IsPrivate tx config.region
            (ok signature)
            (with_signature signature r, Request.send_bundle tx config.region ∷ [])
    by_result signature (ok bundle_id) = (refl, (refl, tt))
    by_result signature (err e) = (refl, tt)

    by_signature :
        (signature : Result String)
        → IsPrivate tx config.region signature
            (submit_signed node config tx skip_preflight signature)
    by_signature (err e) = tt
    by_signature (ok signature) =
        simp on
          (by_result signature (bundle_result (node.post (Request.send_bundle tx config.region))))

-- What a client of the node may take as a refusal before the bundle went anywhere: the JSON-RPC codes
-- of a missing method, of invalid parameters and of an internal error, and the words of a refusal.
abbrev refusal_codes : List ℤ
refusal_codes = negsuc 32600 ∷ negsuc 32601 ∷ negsuc 32602 ∷ []

abbrev refusal_words : List String
refusal_words = "dropped" ∷ "rejected" ∷ "invalid" ∷ "expired" ∷ "simulation failed" ∷ []

abbrev holds_for_some : {A : Type 0} → (A → Bool) → List A → Bool
holds_for_some p [] = false
holds_for_some p (x ∷ xs) = p x || holds_for_some p xs

abbrev is_refusal : JitoError → Bool
is_refusal e =
    holds_for_some (int_eq e.code) refusal_codes
    || holds_for_some (lower_contains e.message) refusal_words

-- Whether the bundle may have been processed although the submission failed.
abbrev body_unknown : HttpError ⊎ RpcReply → Bool
body_unknown (inl e) = true
body_unknown (inr reply) = elim reply.error [ none ↦ true | some e ↦ not (is_refusal e) ]

abbrev pub may_have_landed : HttpOutcome → Bool
may_have_landed (HttpOutcome.not_sent e) = e.is_timeout || not e.is_connect
may_have_landed (HttpOutcome.answered status text body) =
    (leb 500 status && ltb status 600) || body_unknown body

-- The code's two tests of an error amount to a refusal.
refusal_lem : (e : JitoError) → (is_method_missing e.code || is_definite_rejection e) ≡ is_refusal e
unfolding is_definite_rejection
refusal_lem e =
    regroup (int_eq e.code (negsuc 32600)) (int_eq e.code (negsuc 32601))
      (int_eq e.code (negsuc 32602)) (lower_contains e.message "dropped")
      (lower_contains e.message "rejected") (lower_contains e.message "invalid")
      (lower_contains e.message "expired") (lower_contains e.message "simulation failed")
  where
    regroup :
        (a b c d f g h k : Bool)
        → (a || (b || c || d || f || g || h || k))
          ≡ ((a || (b || (c || false))) || (d || (f || (g || (h || (k || false))))))
    regroup a b c d f g h k = ground arith

-- An error that calls for a look at the chain if the flag is set, and is safe to retry if it is not;
-- what succeeds has the flag set.
abbrev pub IsClassified : Result String → Bool → Type 0
IsClassified (ok s) b = b ≡ true
IsClassified (err e) b =
    (requires_status_check (classify_error e) ≡ b)
    × (safe_to_retry_new_blockhash (classify_error e) ≡ not b)

module _ where
  error-IsClassified : (e : JitoError) → IsClassified (on_jito_error e) (not (is_refusal e))
  unfolding on_jito_error classify_error classify_blockchain requires_status_check
      safe_to_retry_new_blockhash
  error-IsClassified e =
      rw (sym (refusal_lem e))
        (by_tests (is_method_missing e.code) refl (is_definite_rejection e) refl)
    where
      by_tests :
          (b : Bool)
          → is_method_missing e.code ≡ b
          → (c : Bool) → is_definite_rejection e ≡ c
          → IsClassified (on_jito_error e) (not (b || c))
      by_tests true p c q = simp p (refl, refl)
      by_tests false p true q = simp (p, q) (refl, refl)
      by_tests false p false q = simp (p, q) (refl, refl)

  send_error-IsClassified :
      (e : HttpError) → IsClassified (on_send_error e) (e.is_timeout || not e.is_connect)
  unfolding on_send_error classify_error classify_blockchain requires_status_check
      safe_to_retry_new_blockhash
  send_error-IsClassified e = by_tests e.is_timeout refl e.is_connect refl
    where
      by_tests :
          (b : Bool)
          → e.is_timeout ≡ b
          → (c : Bool) → e.is_connect ≡ c
          → IsClassified (on_send_error e) (b || not c)
      by_tests true p c q = simp p (refl, refl)
      by_tests false p true q = simp (p, q) (refl, refl)
      by_tests false p false q = simp (p, q) (refl, refl)

  body-IsClassified :
      (body : HttpError ⊎ RpcReply) → IsClassified (on_bundle_body body) (body_unknown body)
  unfolding on_bundle_body on_bundle_reply classify_error classify_blockchain requires_status_check
      safe_to_retry_new_blockhash
  body-IsClassified (inl e) = (refl, refl)
  body-IsClassified (inr reply) = by_error reply.error refl
    where
      by_result :
          (o : Option String)
          → IsClassified
              (or_empty "Empty response from Jito - bundle may have been processed" o)
              true
      by_result none = (refl, refl)
      by_result (some bundle_id) = refl

      by_error :
          (o : Option JitoError)
          → reply.error ≡ o
          → IsClassified
              (on_bundle_reply reply o)
              (elim o [ none ↦ true | some e ↦ not (is_refusal e) ])
      by_error none h = by_result reply.result
      by_error (some e) h = error-IsClassified e

-- Every failure of a bundle is classified, and by its error alone: where the bundle may have been
-- processed (a timeout or another error after the connection, a server error, an answer that cannot
-- be read or is empty, or an error that is no refusal) a look at the chain is required and a new
-- blockhash is not safe; after a failed connection or a refusal, the other way round. A refusal has
-- the code -32601, -32602 or -32603, or one of the words dropped, rejected, invalid, expired and
-- simulation failed in its message. A success is reported only where the bundle may have been
-- processed.
pub bundle_result-IsClassified :
    (outcome : HttpOutcome) → IsClassified (bundle_result outcome) (may_have_landed outcome)
unfolding bundle_result classify_error classify_blockchain requires_status_check
    safe_to_retry_new_blockhash
bundle_result-IsClassified (HttpOutcome.not_sent e) = send_error-IsClassified e
bundle_result-IsClassified (HttpOutcome.answered status text body) =
    by_status (is_server_error status) refl
  where
    by_status :
        (b : Bool)
        → is_server_error status ≡ b
        → IsClassified
            (bundle_result (HttpOutcome.answered status text body))
            (b || body_unknown body)
    by_status true e = simp e (refl, refl)
    by_status false e = simp e (body-IsClassified body)
