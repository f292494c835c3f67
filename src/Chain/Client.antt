-- ===== src/Chain/Client.antt =====
-- `RpcBlockchainClient` of src/infra/blockchain/solana.rs: the transactions that it builds and hands
-- over. The Solana SDK's own types are kept to what the code reads of them; what the SDK and the
-- node answer is given by `Sdk` and `Client`.
use solana_compliance_relaye.Prelude.{
  ℕ, ◌⊎◌, inl, inr, Bool, true, false, Option, none, some, String, ◌+++◌, List, [], ◌∷◌, ◌++◌, ◌==◌,
  if◌then◌else◌,
}
use solana_compliance_relaye.Domain.Error.{BlockchainError}
use solana_compliance_relaye.Runtime.{Result, ok, err}
use solana_compliance_relaye.Chain.Jito.{chain_err}
use solana_compliance_relaye.Chain.Errors.{
  ClientError, map_solana_client_error, wrap_error_with_blockhash,
}

-- A public key by its Base58 text.
abbrev pub Pubkey : Type 0
Pubkey = String

pub data Instruction : Type 0 where
  set_compute_unit_price : ℕ → Instruction
  -- lamports from the first account to the second
  transfer : Pubkey → Pubkey → ℕ → Instruction
  -- payer, wallet, mint and token program
  create_associated_token_account_idempotent : Pubkey → Pubkey → Pubkey → Pubkey → Instruction
  -- token program, source, mint, destination, authority, amount and decimals
  transfer_checked : Pubkey → Pubkey → Pubkey → Pubkey → Pubkey → ℕ → ℕ → Instruction

-- A transaction that its payer has signed.
pub record Transaction : Type 0 where
  pub instructions : List Instruction
  pub payer : Pubkey
  pub recent_blockhash : String

pub record Account : Type 0 where
  pub owner : Pubkey
  pub data_bytes : List ℕ

-- The SDK client's answers. The accounts of one operation are fetched one after the other, and the
-- number says which fetch it is.
pub record Sdk : Type 0 where
  pub get_latest_blockhash : ClientError ⊎ String
  pub get_account : ℕ → Pubkey → ClientError ⊎ Account
  pub send_and_confirm_transaction : Transaction → ClientError ⊎ String

-- The `SubmissionStrategy` trait object.
pub record Strategy : Type 0 where
  pub submit_transaction : String → Bool → Result String
  pub supports_private_submission : Bool

pub record Client : Type 0 where
  pub sdk_client : Option Sdk
  -- the public key of the relayer's keypair
  pub keypair : Option Pubkey
  pub submission_strategy : Option Strategy
  pub jito_tip_lamports : Option ℕ
  pub confirmation_timeout_secs : ℕ
  -- the answer of the fee strategy, and the Jito account that is drawn
  pub priority_fee : ℕ
  pub random_jito_tip_account : Pubkey
  -- `Pubkey::from_str` with its error, the derived token accounts, the token programs that the
  -- instruction builder refuses, and the encodings
  pub parse_pubkey : String → String ⊎ Pubkey
  pub associated_token_address : Pubkey → Pubkey → Pubkey → Pubkey
  pub token_program_error : Pubkey → Option String
  pub serialize : Transaction → String ⊎ List ℕ
  pub bs58_encode : List ℕ → String

-- A result, and the transactions handed to the strategy or the SDK for it.
abbrev pub Handed : Type 0 → Type 0
Handed A = Result A × List Transaction

abbrev pub failed : {A : Type 0} → String → Handed A
failed message = (chain_err (BlockchainError.transaction_failed message), [])

unfoldable pub supports_private : Option Strategy → Bool
supports_private none = false
supports_private (some s) = s.supports_private_submission

unfoldable pub tip_of : Bool → Option ℕ → Pubkey → Pubkey → Option Instruction
tip_of false lamports payer tip_account = none
tip_of true none payer tip_account = none
tip_of true (some lamports) payer tip_account =
    if lamports == 0 then none else some (Instruction.transfer payer tip_account lamports)

abbrev pub push_tip : List Instruction → Option Instruction → List Instruction
push_tip instructions none = instructions
push_tip instructions (some tip) = instructions ++ (tip ∷ [])

module _ (client : Client) where
  unfoldable pub create_jito_tip_instruction : Pubkey → Option Instruction
  unfolding supports_private tip_of
  create_jito_tip_instruction payer =
      tip_of (supports_private client.submission_strategy) client.jito_tip_lamports payer
        client.random_jito_tip_account

  -- The tip comes last.
  unfoldable pub with_tip : Pubkey → List Instruction → List Instruction
  unfolding create_jito_tip_instruction
  with_tip payer instructions = push_tip instructions (create_jito_tip_instruction payer)

  unfoldable pub serialize_transaction_base58 : Transaction → Result String
  serialize_transaction_base58 tx = elim (client.serialize tx) [
    | inl e ↦
        chain_err (BlockchainError.transaction_failed ("Failed to serialize transaction: " +++ e))
    | inr bytes ↦ ok (client.bs58_encode bytes)
  ]

  unfoldable pub submission_result : Transaction → Result String → Result (String × String)
  unfolding wrap_error_with_blockhash
  submission_result tx (ok signature) = ok (signature, tx.recent_blockhash)
  submission_result tx (err e) = err (wrap_error_with_blockhash e tx.recent_blockhash)

  unfoldable pub by_strategy : Strategy → Transaction → Result String → Handed (String × String)
  unfolding submission_result
  by_strategy s tx (err e) = (err e, [])
  by_strategy s tx (ok serialized_tx) =
      (submission_result tx (s.submit_transaction serialized_tx true), tx ∷ [])

  unfoldable pub by_sdk : Transaction → ClientError ⊎ String → Result (String × String)
  unfolding wrap_error_with_blockhash map_solana_client_error
  by_sdk tx (inl e) =
      err (wrap_error_with_blockhash (map_solana_client_error e) tx.recent_blockhash)
  by_sdk tx (inr signature) = ok (signature, tx.recent_blockhash)

  unfoldable pub hand_over : Option Sdk → Option Strategy → Transaction → Handed (String × String)
  unfolding by_strategy by_sdk serialize_transaction_base58
  hand_over none strategy tx = failed "SDK client not available"
  hand_over (some sdk) (some s) tx = by_strategy s tx (serialize_transaction_base58 tx)
  hand_over (some sdk) none tx = (by_sdk tx (sdk.send_and_confirm_transaction tx), tx ∷ [])

  unfoldable pub submit_or_confirm_transaction : Transaction → Handed (String × String)
  unfolding hand_over
  submit_or_confirm_transaction tx = hand_over client.sdk_client client.submission_strategy tx

  -- The transaction is built on a fresh blockhash, then submitted.
  unfoldable pub submit_on :
      Pubkey → List Instruction → ClientError ⊎ String → Handed (String × String)
  unfolding submit_or_confirm_transaction map_solana_client_error
  submit_on payer instructions (inl e) = (err (map_solana_client_error e), [])
  submit_on payer instructions (inr recent_blockhash) =
      submit_or_confirm_transaction
        (record { instructions = instructions; payer = payer; recent_blockhash = recent_blockhash })

  unfoldable pub sign_and_submit : Sdk → Pubkey → List Instruction → Handed (String × String)
  unfolding submit_on
  sign_and_submit sdk payer instructions = submit_on payer instructions sdk.get_latest_blockhash

  unfoldable pub sol_to : Sdk → Pubkey → ℕ → String ⊎ Pubkey → Handed (String × String)
  unfolding sign_and_submit with_tip
  sol_to sdk payer amount_lamports (inl e) =
      (chain_err (BlockchainError.invalid_signature ("Invalid destination address: " +++ e)), [])
  sol_to sdk payer amount_lamports (inr to_pubkey) = sign_and_submit sdk payer (
      with_tip payer (
        Instruction.set_compute_unit_price client.priority_fee
        ∷ Instruction.transfer payer to_pubkey amount_lamports
        ∷ []))

  unfoldable pub sol_by : Option Sdk → Option Pubkey → String → ℕ → Handed (String × String)
  unfolding sol_to
  sol_by (some sdk) (some payer) to_address amount_lamports =
      sol_to sdk payer amount_lamports (client.parse_pubkey to_address)
  sol_by _ _ to_address amount_lamports = failed "SDK client not initialized for SOL transfers"

  unfoldable pub transfer_sol : String → ℕ → Handed (String × String)
  unfolding sol_by
  transfer_sol to_address amount_lamports =
      if amount_lamports == 0
      then failed "Transfer amount must be greater than 0"
      else sol_by client.sdk_client client.keypair to_address amount_lamports
