-- ===== src/Chain/Jito.antt =====
-- `QuickNodePrivateSubmissionStrategy` of src/infra/blockchain/quicknode.rs: private submission as a
-- Jito bundle, or `sendTransaction` where bundles are switched off. At most one request is sent.
use solana_compliance_relaye.Prelude.{
  ℕ, ◌⊎◌, inl, inr, Bool, ◌||◌, ◌&&◌, Option, none, some, String, ◌+++◌, List, [], ◌∷◌, leb, ltb, ℤ,
  negsuc, int_eq, int_text, lower_contains, if◌then◌else◌,
}
use solana_compliance_relaye.Domain.Error.{AppError, BlockchainError}
use solana_compliance_relaye.Runtime.{Result, ok, err}
use solana_compliance_relaye.Chain.Wire.{extract_signature_from_serialized_tx}

-- An error of the HTTP client, `reqwest::Error`, as far as the code looks into it.
pub record HttpError : Type 0 where
  pub is_timeout : Bool
  pub is_connect : Bool
  pub text : String

pub record JitoError : Type 0 where
  pub code : ℤ
  pub message : String

-- `JitoBundleResponse` and `SendTransactionResponse`, which have the same fields.
pub record RpcReply : Type 0 where
  pub result : Option String
  pub error : Option JitoError

-- What comes back for a request: the error of sending it, or a status with its text, and the error of
-- reading the body or the body.
pub data HttpOutcome : Type 0 where
  not_sent : HttpError → HttpOutcome
  answered : ℕ → String → HttpError ⊎ RpcReply → HttpOutcome

-- The requests of this strategy: a bundle with the transaction and the region, or the transaction and
-- whether to skip the preflight.
pub data Request : Type 0 where
  send_bundle : String → Option String → Request
  send_transaction : String → Bool → Request

pub record QuickNodeSubmissionConfig : Type 0 where
  pub rpc_url : String
  pub enable_jito_bundles : Bool
  pub tip_lamports : ℕ
  pub max_bundle_retries : ℕ
  pub region : Option String

abbrev pub chain_err {ℓ} : {A : Type ℓ} → BlockchainError → Result A
chain_err e = err (AppError.blockchain e)

-- `StatusCode::is_server_error`.
abbrev pub is_server_error : ℕ → Bool
is_server_error status = leb 500 status && ltb status 600

abbrev pub or_empty : String → Option String → Result String
or_empty problem none = chain_err (BlockchainError.jito_state_unknown problem)
or_empty problem (some result) = ok result

-- -32601: the method is not found.
abbrev pub is_method_missing : ℤ → Bool
is_method_missing code = int_eq code (negsuc 32600)

-- -32602, -32603, or a message that says so.
unfoldable pub is_definite_rejection : JitoError → Bool
unfolding lower_contains
is_definite_rejection e =
    int_eq e.code (negsuc 32601)
    || int_eq e.code (negsuc 32602)
    || lower_contains e.message "dropped"
    || lower_contains e.message "rejected"
    || lower_contains e.message "invalid"
    || lower_contains e.message "expired"
    || lower_contains e.message "simulation failed"

unfoldable pub on_jito_error : JitoError → Result String
unfolding is_definite_rejection int_text
on_jito_error e =
    if is_method_missing e.code
    then chain_err (
        BlockchainError.private_submission_fallback
          "qn_broadcastBundle not available on this endpoint")
    else if is_definite_rejection e
    then chain_err (BlockchainError.jito_bundle_failed e.message)
    else chain_err (
        BlockchainError.jito_state_unknown (
          "Jito error "
          +++ int_text e.code
          +++ ": "
          +++ e.message
          +++ " - bundle may have been processed"))

unfoldable pub on_bundle_reply : RpcReply → Option JitoError → Result String
unfolding on_jito_error
on_bundle_reply reply (some e) = on_jito_error e
on_bundle_reply reply none =
    or_empty "Empty response from Jito - bundle may have been processed" reply.result

unfoldable pub on_bundle_body : HttpError ⊎ RpcReply → Result String
unfolding on_bundle_reply
on_bundle_body (inl e) =
    chain_err (BlockchainError.jito_state_unknown ("Failed to parse response: " +++ e.text))
on_bundle_body (inr reply) = on_bundle_reply reply reply.error

unfoldable pub on_send_error : HttpError → Result String
on_send_error e =
    if e.is_timeout
    then chain_err
        (BlockchainError.jito_state_unknown "Request timed out - bundle may have been processed")
    else if e.is_connect
    then chain_err (BlockchainError.jito_bundle_failed ("Connection failed: " +++ e.text))
    else chain_err
        (BlockchainError.jito_state_unknown ("HTTP request failed after sending: " +++ e.text))

-- The bundle's id, or an error that says whether the bundle may have been processed.
unfoldable pub bundle_result : HttpOutcome → Result String
unfolding on_bundle_body on_send_error
bundle_result (HttpOutcome.not_sent e) = on_send_error e
bundle_result (HttpOutcome.answered status text body) =
    if is_server_error status
    then chain_err (
        BlockchainError.jito_state_unknown
          ("Server error " +++ text +++ ": bundle may have been processed"))
    else on_bundle_body body

unfoldable pub on_standard_reply : RpcReply → Option JitoError → Result String
unfolding int_text
on_standard_reply reply (some e) =
    chain_err (BlockchainError.transaction_failed (int_text e.code +++ ": " +++ e.message))
on_standard_reply reply none = elim reply.result [
  | none ↦ chain_err (BlockchainError.rpc_error "Empty sendTransaction response")
  | some signature ↦ ok signature
]

unfoldable pub on_standard_body : HttpError ⊎ RpcReply → Result String
unfolding on_standard_reply
on_standard_body (inl e) =
    chain_err (BlockchainError.rpc_error ("Failed to parse sendTransaction response: " +++ e.text))
on_standard_body (inr reply) = on_standard_reply reply reply.error

-- The status is not looked at.
unfoldable pub standard_result : HttpOutcome → Result String
unfolding on_standard_body
standard_result (HttpOutcome.not_sent e) =
    chain_err (BlockchainError.rpc_error ("sendTransaction HTTP failed: " +++ e.text))
standard_result (HttpOutcome.answered status text body) = on_standard_body body

-- Base58 and the node's answer to each request.
pub record Node : Type 0 where
  pub bs58_decode : String → String ⊎ List ℕ
  pub bs58_encode : List ℕ → String
  pub post : Request → HttpOutcome

-- A result, and the requests sent for it.
abbrev pub Sent : Type 0
Sent = Result String × List Request

abbrev pub with_signature : String → Result String → Result String
with_signature signature (ok bundle_id) = ok signature
with_signature signature (err e) = err e

module _ (node : Node) (config : QuickNodeSubmissionConfig) where
  unfoldable pub submit_jito_bundle : String → Sent
  unfolding bundle_result
  submit_jito_bundle serialized_tx =
      let request = Request.send_bundle serialized_tx config.region in
      (bundle_result (node.post request), request ∷ [])

  unfoldable pub submit_standard : String → Bool → Sent
  unfolding standard_result
  submit_standard serialized_tx skip_preflight =
      let request = Request.send_transaction serialized_tx skip_preflight in
      (standard_result (node.post request), request ∷ [])

  -- With bundles switched on there is no fallback to the public mempool.
  unfoldable pub submit_signed : String → Bool → Result String → Sent
  unfolding submit_jito_bundle submit_standard
  submit_signed serialized_tx skip_preflight (err e) = (err e, [])
  submit_signed serialized_tx skip_preflight (ok tx_signature) =
      if config.enable_jito_bundles
      then (
        with_signature tx_signature (submit_jito_bundle serialized_tx).0,
        (submit_jito_bundle serialized_tx).1,
      )
      else submit_standard serialized_tx skip_preflight

  unfoldable pub strategy_submit : String → Bool → Sent
  unfolding submit_signed
  strategy_submit serialized_tx skip_preflight =
      submit_signed serialized_tx skip_preflight
        (extract_signature_from_serialized_tx node.bs58_decode node.bs58_encode serialized_tx)
