-- ===== src/Domain/Transfer.antt =====
-- Transfers, checkout sessions and risk profiles: the records of src/domain/types.rs. Times are in
-- microseconds, the resolution of the database's columns. A `serde_json::Value` is kept by its
-- text, which is what the code reads of it.
use solana_compliance_relaye.Prelude.{ℤ, ℕ, Bool, Option, List, String}
use solana_compliance_relaye.Domain.Status.{
  BlockchainStatus, ComplianceStatus, LastErrorType, CheckoutSessionStatus,
}

pub data TransferType : Type 0 where
  -- the amount in atomic units
  public : ℕ → TransferType
  -- the balance ciphertext, then the equality, validity and range proofs
  confidential : String → String → String → String → TransferType

pub record TransferRequest : Type 0 where
  pub id : String
  pub from_address : String
  pub to_address : String
  pub transfer_details : TransferType
  pub token_mint : Option String
  pub compliance_status : ComplianceStatus
  pub blockchain_status : BlockchainStatus
  pub blockchain_signature : Option String
  pub blockchain_retry_count : ℕ
  pub blockchain_last_error : Option String
  pub blockchain_next_retry_at : Option ℕ
  pub original_tx_signature : Option String
  pub last_error_type : LastErrorType
  pub blockhash_used : Option String
  pub nonce : Option String
  pub client_signature : Option String
  pub created_at : ℕ
  pub updated_at : ℕ

pub record SubmitTransferRequest : Type 0 where
  pub from_address : String
  pub to_address : String
  pub transfer_details : TransferType
  pub token_mint : Option String
  pub signature : String
  pub nonce : String

pub record CreateCheckoutSessionRequest : Type 0 where
  pub merchant_id : String
  pub merchant_reference : String
  pub destination_wallet : String
  pub token_mint : Option String
  pub amount : ℕ
  pub customer_wallet : Option String
  pub expires_at : Option ℕ
  pub merchant_metadata : Option String

pub record CheckoutSession : Type 0 where
  pub id : String
  pub merchant_id : String
  pub merchant_reference : String
  pub destination_wallet : String
  pub token_mint : Option String
  pub amount : ℕ
  pub customer_wallet : Option String
  pub status : CheckoutSessionStatus
  pub expires_at : ℕ
  pub merchant_metadata : Option String
  pub transfer_request_id : Option String
  pub created_at : ℕ
  pub updated_at : ℕ

pub record CheckoutTransferSubmissionResponse : Type 0 where
  pub session : CheckoutSession
  pub transfer_request : TransferRequest

pub record WalletRiskProfile : Type 0 where
  pub address : String
  pub risk_score : Option ℤ
  pub risk_level : Option String
  pub reasoning : Option String
  pub has_sanctioned_assets : Bool
  pub helius_assets_checked : Bool
  pub created_at : ℕ
  pub updated_at : ℕ

pub record HeliusTransaction : Type 0 where
  pub transaction_type : String
  pub signature : String
  pub transaction_error : Option String
  pub source : String

pub record QuickNodeTransactionMeta : Type 0 where
  pub err : Option String
  pub fee : Option ℕ
  pub pre_balances : List ℕ
  pub post_balances : List ℕ

pub record QuickNodeWebhookEvent : Type 0 where
  pub signature : String
  pub slot : Option ℕ
  pub block_time : Option ℤ
  pub err : Option String
  pub meta : Option QuickNodeTransactionMeta
