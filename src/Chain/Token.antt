-- ===== src/Chain/Token.antt =====
-- `RpcBlockchainClient::transfer_token` of src/infra/blockchain/solana.rs.
use solana_compliance_relaye.Prelude.{
  ℕ, ◌+◌, ◌*◌, ◌⊎◌, inl, inr, Bool, false, not, Option, none, some, String, ◌+++◌, List, [], ◌∷◌,
  ◌++◌, decimal, ◌==◌, ltb, length, take, drop, str_eq, if◌then◌else◌,
}
use solana_compliance_relaye.Domain.Error.{BlockchainError}
use solana_compliance_relaye.Chain.Jito.{chain_err}
use solana_compliance_relaye.Chain.Errors.{ClientError}
use solana_compliance_relaye.Chain.Client.{
  Pubkey, Instruction, Account, Sdk, Client, Handed, failed, with_tip, sign_and_submit,
}

abbrev pub decimals_offset : ℕ
decimals_offset = 44

abbrev pub min_mint_size : ℕ
min_mint_size = 82

abbrev pub token_account_amount_offset : ℕ
token_account_amount_offset = 64

-- `u64::from_le_bytes`.
unfoldable pub from_le_bytes : List ℕ → ℕ
from_le_bytes [] = 0
from_le_bytes (b ∷ bytes) = b + 256 * from_le_bytes bytes

abbrev pub first_or_zero : List ℕ → ℕ
first_or_zero [] = 0
first_or_zero (b ∷ bytes) = b

-- The balance in a token account's data, if it is long enough to hold one.
unfoldable pub balance_in : List ℕ → Option ℕ
unfolding from_le_bytes
balance_in bytes =
    if ltb (length bytes) (token_account_amount_offset + 8)
    then none
    else some (from_le_bytes (take 8 (drop token_account_amount_offset bytes)))

abbrev pub is_short : Option ℕ → ℕ → Bool
is_short none amount = false
is_short (some balance) amount = ltb balance amount

-- What the transfer has found out so far.
pub record TokenTransfer : Type 0 where
  pub payer : Pubkey
  pub to_pubkey : Pubkey
  pub mint_pubkey : Pubkey
  pub token_program_id : Pubkey
  pub amount : ℕ
  pub decimals : ℕ

-- An instruction to create the destination's account, if it could not be fetched.
abbrev pub create_if_missing : TokenTransfer → ClientError ⊎ Account → List Instruction
create_if_missing t (inr account) = []
create_if_missing t (inl e) =
    Instruction.create_associated_token_account_idempotent t.payer t.to_pubkey t.mint_pubkey
      t.token_program_id
    ∷ []

module _ (client : Client) (sdk : Sdk) where
  unfoldable pub source_ata : TokenTransfer → Pubkey
  source_ata t = client.associated_token_address t.payer t.mint_pubkey t.token_program_id

  unfoldable pub destination_ata : TokenTransfer → Pubkey
  destination_ata t = client.associated_token_address t.to_pubkey t.mint_pubkey t.token_program_id

  unfoldable pub transfer_instruction : TokenTransfer → Instruction
  unfolding source_ata destination_ata
  transfer_instruction t =
      Instruction.transfer_checked t.token_program_id (source_ata t) t.mint_pubkey
        (destination_ata t) t.payer t.amount t.decimals

  unfoldable pub token_instructions : TokenTransfer → List Instruction
  unfolding transfer_instruction destination_ata
  token_instructions t =
      (Instruction.set_compute_unit_price client.priority_fee
        ∷ create_if_missing t (sdk.get_account 2 (destination_ata t)))
      ++ (transfer_instruction t ∷ [])

  unfoldable pub send_tokens : TokenTransfer → Option String → Handed (String × String)
  unfolding token_instructions sign_and_submit with_tip
  send_tokens t (some e) = failed ("Failed to create transfer_checked instruction: " +++ e)
  send_tokens t none =
      sign_and_submit client sdk t.payer (with_tip client t.payer (token_instructions t))

  unfoldable pub from_source :
      TokenTransfer → String → ClientError ⊎ Account → Handed (String × String)
  unfolding send_tokens balance_in
  from_source t token_mint (inl e) = failed (
      "Source token account does not exist or cannot be fetched. The sender (" +++ t.payer
      +++ ") does not have an associated token account for mint " +++ token_mint +++ ". Error: "
      +++ e.text)
  from_source t token_mint (inr account) =
      if not (str_eq account.owner t.token_program_id)
      then failed (
          "Source token account is not owned by the token program. Expected owner: "
          +++ t.token_program_id +++ ", actual owner: " +++ account.owner)
      else if is_short (balance_in account.data_bytes) t.amount
      then (chain_err BlockchainError.insufficient_funds, [])
      else send_tokens t (client.token_program_error t.token_program_id)

  unfoldable pub of_mint :
      Pubkey → Pubkey → Pubkey → String → ℕ → ClientError ⊎ Account → Handed (String × String)
  unfolding from_source source_ata
  of_mint payer to_pubkey mint_pubkey token_mint amount (inl e) =
      failed ("Failed to fetch mint account: " +++ e.text)
  of_mint payer to_pubkey mint_pubkey token_mint amount (inr mint) =
      if ltb (length mint.data_bytes) min_mint_size
      then failed (
          "Mint account data too small: "
          +++ decimal (length mint.data_bytes)
          +++ " bytes, expected at least "
          +++ decimal min_mint_size)
      else let t : TokenTransfer = record {
        payer = payer;
        to_pubkey = to_pubkey;
        mint_pubkey = mint_pubkey;
        token_program_id = mint.owner;
        amount = amount;
        decimals = first_or_zero (drop decimals_offset mint.data_bytes);
      } in
        from_source t token_mint (sdk.get_account 1 (source_ata t))

  unfoldable pub to_parsed :
      Pubkey → String → ℕ → String ⊎ Pubkey → String ⊎ Pubkey → Handed (String × String)
  unfolding of_mint
  to_parsed payer token_mint amount (inl e) mint =
      (chain_err (BlockchainError.invalid_signature ("Invalid destination address: " +++ e)), [])
  to_parsed payer token_mint amount (inr to_pubkey) (inl e) =
      (chain_err (BlockchainError.invalid_signature ("Invalid token mint address: " +++ e)), [])
  to_parsed payer token_mint amount (inr to_pubkey) (inr mint_pubkey) =
      of_mint payer to_pubkey mint_pubkey token_mint amount (sdk.get_account 0 mint_pubkey)

module _ (client : Client) where
  unfoldable pub tokens_by :
      Option Sdk → Option Pubkey → String → String → ℕ → Handed (String × String)
  unfolding to_parsed
  tokens_by (some sdk) (some payer) to_address token_mint amount =
      to_parsed client sdk payer token_mint amount (client.parse_pubkey to_address)
        (client.parse_pubkey token_mint)
  tokens_by _ _ to_address token_mint amount =
      failed "SDK client not initialized for token transfers"

  unfoldable pub transfer_token : String → String → ℕ → Handed (String × String)
  unfolding tokens_by
  transfer_token to_address token_mint amount =
      if amount == 0
      then failed "Transfer amount must be greater than 0"
      else tokens_by client.sdk_client client.keypair to_address token_mint amount
