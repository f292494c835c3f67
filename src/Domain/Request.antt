-- ===== src/Domain/Request.antt =====
-- `SubmitTransferRequest`: its validation, the message that the sender signs and the check of the
-- signature (src/domain/types.rs).
use solana_compliance_relaye.Prelude.{
  ℕ, Bool, not, ◌&&◌, ◌||◌, Option, none, some, List, [], ◌∷◌, ◌++◌, String, len, ◌+++◌, is_empty,
  all_chars, decimal, ltb, leb, ◌==◌, length, unwrap_or, if◌then◌else◌, ◌⊎◌, inl, inr,
}
use solana_compliance_relaye.Domain.Error.{AppError, ValidationError}
use solana_compliance_relaye.Domain.Transfer.{TransferType, SubmitTransferRequest}
use solana_compliance_relaye.Runtime.{Env, Result, ok, err}

-- `c.is_ascii_alphanumeric() || c == '-'`
unfoldable pub is_nonce_char : ℕ → Bool
is_nonce_char c =
    (leb b'0' c && leb c b'9')
    || (leb b'A' c && leb c b'Z')
    || (leb b'a' c && leb c b'z')
    || c == b'-'

abbrev pub Problems : Type 0
Problems = List (String × String)

-- One `errors.add(field, message)` under a condition.
abbrev pub problem_if : Bool → String → String → Problems
problem_if b field message = if b then (field, message) ∷ [] else []

unfoldable pub nonce_problems : String → Problems
unfolding is_nonce_char
nonce_problems n =
    if is_empty n
    then ("nonce", "Nonce is required for replay protection") ∷ []
    else if ltb (len n) 32 || ltb 64 (len n)
    then ("nonce", "Nonce must be 32-64 characters (UUID format)") ∷ []
    else problem_if (not (all_chars is_nonce_char n)) "nonce"
        "Nonce must be alphanumeric with optional hyphens (UUID format)"

unfoldable pub details_problems : TransferType → Problems
details_problems (TransferType.public amount) =
    problem_if (amount == 0) "amount" "Amount must be greater than 0"
details_problems (TransferType.confidential balance equality validity range) =
    problem_if (is_empty balance) "new_decryptable_available_balance"
      "New decryptable available balance is required for confidential transfers"
    ++ (problem_if (is_empty equality) "equality_proof"
          "Equality proof is required for confidential transfers"
        ++ (problem_if (is_empty validity) "ciphertext_validity_proof"
              "Ciphertext validity proof is required for confidential transfers"
            ++ problem_if (is_empty range) "range_proof"
                "Range proof is required for confidential transfers"))

-- `Validate::validate`: all the problems at once.
unfoldable pub problems : SubmitTransferRequest → Problems
unfolding nonce_problems details_problems
problems r =
    problem_if (is_empty r.from_address) "from_address" "From address is required"
    ++ (problem_if (is_empty r.to_address) "to_address" "To address is required"
        ++ (nonce_problems r.nonce ++ details_problems r.transfer_details))

unfoldable pub amount_part : TransferType → String
amount_part (TransferType.public amount) = decimal amount
amount_part (TransferType.confidential _ _ _ _) = "confidential"

-- The signed message binds the confidential proofs by the word "confidential" only.
unfoldable pub create_signing_message : SubmitTransferRequest → String
unfolding amount_part
create_signing_message r =
    r.from_address
    +++ ":"
    +++ r.to_address
    +++ ":"
    +++ amount_part r.transfer_details
    +++ ":"
    +++ unwrap_or r.token_mint "SOL"
    +++ ":"
    +++ r.nonce

abbrev denied : String → Result (Unit {0})
denied m = err (AppError.authorization m)

module _ (env : Env) where
  abbrev no_problems : Problems → Result (Unit {0})
  no_problems [] = ok tt
  no_problems (p ∷ ps) =
      err (AppError.validation (ValidationError.multiple (env.validation_errors_text (p ∷ ps))))

  unfoldable pub validate : SubmitTransferRequest → Result (Unit {0})
  unfolding problems
  validate r = no_problems (problems r)

  check_strict : Option String → Result (Unit {0})
  check_strict (some e) = denied ("Signature verification failed: " +++ e)
  check_strict none = ok tt

  check_signature : List ℕ → String → String ⊎ List ℕ → Result (Unit {0})
  unfolding check_strict
  check_signature key message (inl e) = denied ("Invalid signature encoding: " +++ e)
  check_signature key message (inr sig) =
      if length sig == 64
      then check_strict (env.verify_strict key message sig)
      else denied ("Invalid signature length: expected 64 bytes, got " +++ decimal (length sig))

  check_key : List ℕ → Option String → SubmitTransferRequest → Result (Unit {0})
  unfolding check_signature create_signing_message
  check_key key (some e) r = denied ("Invalid public key: " +++ e)
  check_key key none r =
      check_signature key (create_signing_message r) (env.bs58_decode r.signature)

  check_sender : String ⊎ List ℕ → SubmitTransferRequest → Result (Unit {0})
  unfolding check_key
  check_sender (inl e) r = denied ("Invalid from_address encoding: " +++ e)
  check_sender (inr key) r =
      if length key == 32
      then check_key key (env.verifying_key key) r
      else denied ("Invalid from_address length: expected 32 bytes, got " +++ decimal (length key))

  unfoldable pub verify_signature : SubmitTransferRequest → Result (Unit {0})
  unfolding check_sender
  verify_signature r = check_sender (env.bs58_decode r.from_address) r
