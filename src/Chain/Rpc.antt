-- ===== src/Chain/Rpc.antt =====
-- JSON-RPC calls of src/infra/blockchain/solana.rs: one request, its retries, and the polls for a
-- transaction's confirmation.
use solana_compliance_relaye.Prelude.{
  ℕ, zero, suc, ◌*◌, ◌⊎◌, inl, inr, Bool, true, false, ◌||◌, Option, none, some, String, ◌+++◌,
  List, [], ◌∷◌, decimal, ltb, negsuc, int_eq, int_text, contains, opt_eq, str_eq, if◌then◌else◌,
}
use solana_compliance_relaye.Domain.Status.{TransactionStatus}
use solana_compliance_relaye.Domain.Error.{AppError, BlockchainError, ValidationError}
use solana_compliance_relaye.Runtime.{Result, ok, err}
use solana_compliance_relaye.Chain.Jito.{HttpError, JitoError, chain_err}

-- `JsonRpcResponse`; an error has the fields of `JitoError`.
pub record JsonRpcResponse (J : Type 0) : Type 0 where
  pub result : Option J
  pub error : Option JitoError

module _ {J : Type 0} where
  unfoldable pub rpc_failure : JitoError → Result J
  unfolding contains int_text
  rpc_failure e =
      if contains e.message "insufficient" || int_eq e.code (negsuc 32001)
      then chain_err BlockchainError.insufficient_funds
      else chain_err (BlockchainError.rpc_error (int_text e.code +++ ": " +++ e.message))

  unfoldable pub rpc_reply : Option J → Option JitoError → Result J
  unfolding rpc_failure
  rpc_reply result (some e) = rpc_failure e
  rpc_reply none none = chain_err (BlockchainError.rpc_error "Empty response")
  rpc_reply (some j) none = ok j

  -- `HttpSolanaRpcProvider::send_request`, from the error of sending, or that of reading the body, or
  -- the body.
  unfoldable pub send_request : HttpError ⊎ (HttpError ⊎ JsonRpcResponse J) → Result J
  unfolding rpc_reply
  send_request (inl e) =
      if e.is_timeout
      then chain_err (BlockchainError.timeout e.text)
      else chain_err (BlockchainError.rpc_error e.text)
  send_request (inr (inl e)) = chain_err (BlockchainError.rpc_error e.text)
  send_request (inr (inr reply)) = rpc_reply reply.result reply.error

-- `serde_json::from_value` with its error.
abbrev pub deserialized : {R : Type 0} → String ⊎ R → Result R
deserialized (inl e) = chain_err (BlockchainError.rpc_error ("Deserialization error: " +++ e))
deserialized (inr r) = ok r

abbrev pub last_or_unknown : Option AppError → AppError
last_or_unknown none = AppError.blockchain (BlockchainError.rpc_error "Unknown error")
last_or_unknown (some e) = e

module _ {J R : Type 0} where
  module _ (provider : ℕ → Result J) (from_value : J → String ⊎ R) where
    -- The loop with the attempts that are left, the number of the next one, and the last error. It
    -- gives back the number of requests too.
    unfoldable pub rpc_attempts : ℕ → ℕ → Option AppError → Result R × ℕ
    rpc_attempts zero attempt last_error = (err (last_or_unknown last_error), attempt)
    rpc_attempts (suc left) attempt last_error = elim (provider attempt) [
      | ok j ↦ (deserialized (from_value j), suc attempt)
      | err e ↦ rpc_attempts left (suc attempt) (some e)
    ]

    -- `rpc_call`: attempts 0 to `max_retries`, after the parameters are serialized.
    unfoldable pub rpc_call : ℕ → Option String → Result R × ℕ
    unfolding rpc_attempts
    rpc_call max_retries none = rpc_attempts (suc max_retries) 0 none
    rpc_call max_retries (some e) =
        (chain_err (BlockchainError.rpc_error ("Serialization error: " +++ e)), 0)

-- One entry of `getSignatureStatuses`: the debug text of its error, and the level of confirmation.
pub record SignatureStatus : Type 0 where
  pub err_text : Option String
  pub confirmation_status : Option String

-- `result.value.first()`.
abbrev pub first_status : List (Option SignatureStatus) → Option SignatureStatus
first_status [] = none
first_status (o ∷ os) = o

unfoldable pub confirmation : Option String → Option TransactionStatus
confirmation none = none
confirmation (some level) =
    if str_eq level "finalized"
    then some TransactionStatus.finalized
    else if str_eq level "confirmed"
    then some TransactionStatus.confirmed
    else none

unfoldable pub chain_verdict : Option String → Option String → Option TransactionStatus
unfolding confirmation
chain_verdict (some e) level = some (TransactionStatus.failed e)
chain_verdict none level = confirmation level

unfoldable pub signature_status : Option SignatureStatus → Option TransactionStatus
unfolding chain_verdict
signature_status none = none
signature_status (some s) = chain_verdict s.err_text s.confirmation_status

-- `get_signature_status`, from the answer of `getSignatureStatuses`.
unfoldable pub read_signature_status :
    Result (List (Option SignatureStatus)) → Result (Option TransactionStatus)
unfolding signature_status
read_signature_status (err e) = err e
read_signature_status (ok statuses) = ok (signature_status (first_status statuses))

unfoldable pub is_confirmed_by : Option String → Option String → Result Bool
is_confirmed_by (some e) level =
    chain_err (BlockchainError.transaction_failed ("Transaction failed: Some(" +++ e +++ ")"))
is_confirmed_by none level = ok (opt_eq level (some "confirmed") || opt_eq level (some "finalized"))

unfoldable pub transaction_status : Option SignatureStatus → Result Bool
unfolding is_confirmed_by
transaction_status none = ok false
transaction_status (some s) = is_confirmed_by s.err_text s.confirmation_status

-- `get_transaction_status`, from the same answer.
unfoldable pub read_transaction_status : Result (List (Option SignatureStatus)) → Result Bool
unfolding transaction_status
read_transaction_status (err e) = err e
read_transaction_status (ok statuses) = transaction_status (first_status statuses)

-- What a poll means for the wait: its outcome, or another round.
unfoldable pub after_poll : Result Bool → Option (Result Bool)
after_poll (ok true) = some (ok true)
after_poll (ok false) = none
after_poll (err (AppError.blockchain (BlockchainError.transaction_failed message))) =
    some (chain_err (BlockchainError.transaction_failed message))
after_poll (err _) = none

module _ (elapsed : ℕ → ℕ) (poll : ℕ → Result Bool) (signature : String) (timeout_secs : ℕ) where
  -- The `while` loop of `wait_for_confirmation` from its n-th round on, where `elapsed` counts
  -- nanoseconds; `none` when the fuel runs out.
  unfoldable pub wait_loop : ℕ → ℕ → Option (Result Bool)
  unfolding after_poll
  wait_loop zero n = none
  wait_loop (suc fuel) n =
      let next = wait_loop fuel (suc n) in
      if ltb (elapsed n) (1000000000 * timeout_secs)
      then elim (after_poll (poll n)) [ none ↦ next | some outcome ↦ some outcome ]
      else some (
          chain_err (
            BlockchainError.timeout (
              "Transaction "
              +++ signature
              +++ " not confirmed within "
              +++ decimal timeout_secs
              +++ "s")))

  -- A round sleeps for half a second, so two rounds a second and one more are enough.
  unfoldable pub wait_for_confirmation : Option (Result Bool)
  unfolding wait_loop
  wait_for_confirmation = wait_loop (suc (2 * timeout_secs)) 0

-- `is_blockhash_valid`: by the SDK client, if there is one, which first parses the text; an error of
-- the RPC call counts as expired.
unfoldable pub sdk_blockhash_valid : String ⊎ Result Bool → Result Bool
sdk_blockhash_valid (inl e) = err (
    AppError.validation
      (ValidationError.invalid_field "blockhash" ("Invalid blockhash format: " +++ e)))
sdk_blockhash_valid (inr answer) = answer

unfoldable pub rpc_blockhash_valid : Result Bool → Result Bool
rpc_blockhash_valid (ok valid) = ok valid
rpc_blockhash_valid (err e) = ok false

unfoldable pub client_blockhash_valid : Option (String ⊎ Result Bool) → Result Bool → Result Bool
unfolding sdk_blockhash_valid rpc_blockhash_valid
client_blockhash_valid (some sdk) rpc = sdk_blockhash_valid sdk
client_blockhash_valid none rpc = rpc_blockhash_valid rpc
