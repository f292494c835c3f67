-- ===== src/Tests/Fixtures.antt =====
-- A small environment, and the rows, requests and worlds of the tests.
use solana_compliance_relaye.Domain.Request.{verify_signature}
use solana_compliance_relaye.Domain.Request.{validate}
use solana_compliance_relaye.Prelude.{
  pos, ℕ, zero, suc, ◌+◌, ◌≡◌, refl, ◌⊎◌, inr, Bool, true, false, Option, none, some, List, [], ◌∷◌,
  String, str_eq, arith, if◌then◌else◌,
}
use solana_compliance_relaye.Domain.Status.{
  BlockchainStatus, ComplianceStatus, LastErrorType, CheckoutSessionStatus, TransactionStatus,
}
use solana_compliance_relaye.Domain.Error.{AppError, BlockchainError}
use solana_compliance_relaye.Domain.Transfer.{
  TransferType, TransferRequest, SubmitTransferRequest, CheckoutSession, WalletRiskProfile,
  HeliusTransaction, QuickNodeWebhookEvent,
}
use solana_compliance_relaye.Database.Table.{find}
use solana_compliance_relaye.Database.Queue.{get_pending_blockchain_requests}
use solana_compliance_relaye.Blocklist.Cache.{IsInStep}
use solana_compliance_relaye.Service.Intake.{IsNew}
use solana_compliance_relaye.Runtime.{Env, World, Result, ok, err}

abbrev pub zeros : ℕ → List ℕ
zeros zero = []
zeros (suc n) = 0 ∷ zeros n

abbrev pub decode : String → String ⊎ List ℕ
decode s = if str_eq s "sig" then inr (zeros 64) else inr (zeros 32)

-- The chain and the providers answer as given; everything else works.
abbrev pub env_with :
    Result (Option TransactionStatus)
    → Result Bool
    → Result (String × String)
    → Result ComplianceStatus
    → Env
env_with status valid sent verdict = record {
  clock = λ n. 1000 + n;
  new_uuid = λ n. "new";
  fault = λ n. none;
  sqlx_text = λ e. "database error";
  duplicate_key_text = "duplicate key";
  check_violation_text = "violates check constraint";
  check_compliance = λ n r. verdict;
  submit_transaction = λ n r. sent;
  get_signature_status = λ n s. status;
  is_blockhash_valid = λ n h. valid;
  chain_health = λ n. ok tt;
  check_wallet_assets = λ n a. ok true;
  check_address_risk =
      λ n a. ok (record { risk_score = pos 9; risk_level = "High"; reasoning = "sanctions" });
  validation_errors_text = λ ps. "invalid";
  bs58_decode = decode;
  verifying_key = λ k. none;
  verify_strict = λ k m s. none;
  json_is_object = λ j. true;
}

abbrev pub unknown_env : Env
unknown_env =
    env_with (ok none) (ok true)
      (err (AppError.blockchain (BlockchainError.jito_state_unknown "lost")))
      (ok ComplianceStatus.approved)

abbrev pub failed_env : Env
failed_env =
    env_with (ok (some (TransactionStatus.failed "slippage"))) (ok false) (ok ("sig2", "hash2"))
      (ok ComplianceStatus.rejected)

abbrev pub sending_env : Env
sending_env = env_with (ok none) (ok true) (ok ("sig2", "hash2")) (ok ComplianceStatus.approved)

abbrev pub nonce_text : String
nonce_text = "00000000-0000-0000-0000-000000000001"

abbrev pub request : SubmitTransferRequest
request = record {
  from_address = "alice";
  to_address = "bob";
  transfer_details = TransferType.public 5;
  token_mint = none;
  signature = "sig";
  nonce = nonce_text;
}

abbrev pub unnamed_request : SubmitTransferRequest
unnamed_request = record request { to_address = "" }

abbrev pub row_with : String → ComplianceStatus → BlockchainStatus → TransferRequest
row_with from_address compliance status = record {
  id = "t1";
  from_address = from_address;
  to_address = "bob";
  transfer_details = TransferType.public 5;
  token_mint = none;
  compliance_status = compliance;
  blockchain_status = status;
  blockchain_signature = some "sig1";
  blockchain_retry_count = 9;
  blockchain_last_error = none;
  blockchain_next_retry_at = none;
  original_tx_signature = some "sig1";
  last_error_type = LastErrorType.jito_state_unknown;
  blockhash_used = some "hash1";
  nonce = some nonce_text;
  client_signature = some "sig";
  created_at = 7;
  updated_at = 7;
}

abbrev pub queued : TransferRequest
queued = row_with "alice" ComplianceStatus.approved BlockchainStatus.pending_submission

abbrev pub lost : TransferRequest
lost = row_with "alice" ComplianceStatus.approved BlockchainStatus.failed

abbrev pub sent_row : TransferRequest
sent_row = row_with "alice" ComplianceStatus.approved BlockchainStatus.submitted

abbrev pub others : TransferRequest
others = row_with "carol" ComplianceStatus.rejected BlockchainStatus.failed

abbrev pub world_of : List TransferRequest → List (String × String) → World
world_of rows listed = record {
  transfers = rows;
  sessions = [];
  profiles = [];
  blocklist = some listed;
  blocklist_rows = listed;
  tick = 0;
  submissions = [];
}

abbrev pub profile : WalletRiskProfile
profile = record {
  address = "alice";
  risk_score = some (pos 2);
  risk_level = some "Low";
  reasoning = none;
  has_sanctioned_assets = false;
  helius_assets_checked = true;
  created_at = 7;
  updated_at = 7;
}

abbrev pub session : CheckoutSession
session = record {
  id = "s1";
  merchant_id = "m";
  merchant_reference = "ref";
  destination_wallet = "bob";
  token_mint = none;
  amount = 5;
  customer_wallet = some "alice";
  status = CheckoutSessionStatus.open_session;
  expires_at = 900;
  merchant_metadata = none;
  transfer_request_id = none;
  created_at = 1;
  updated_at = 1;
}

abbrev pub helius_event : HeliusTransaction
helius_event = record {
  transaction_type = "TRANSFER";
  signature = "sig1";
  transaction_error = none;
  source = "SYSTEM";
}

abbrev pub quicknode_event : QuickNodeWebhookEvent
quicknode_event = record {
  signature = "sig1";
  slot = none;
  block_time = none;
  err = some "custom error";
  meta = none;
}

pub always_up : (n : ℕ) → unknown_env.fault n ≡ none
always_up n = refl

pub always_up2 : (n : ℕ) → failed_env.fault n ≡ none
always_up2 n = refl

abbrev pub untracked : TransferRequest
untracked = record queued { original_tx_signature = none }

abbrev pub profiled : World
profiled = record (world_of [] []) { profiles = profile ∷ [] }

abbrev pub claimed_world : World
claimed_world = (get_pending_blockchain_requests unknown_env 5 (world_of (queued ∷ []) [])).1

pub true_is_not_false : ¬ (true ≡ false)
true_is_not_false e = ground arith

pub is_new : IsNew failed_env request (world_of [] [])
unfolding validate verify_signature find
is_new = record {
  up = always_up2;
  valid = refl;
  signed = refl;
  unknown_sender_nonce = refl;
  unknown_nonce = refl;
  fresh = refl;
}

pub in_step : IsInStep (world_of [] (("bob", "fraud") ∷ []))
in_step = record { store = ("bob", "fraud") ∷ []; cached = refl; agrees = λ a. refl }

abbrev pub linked_session : CheckoutSession
linked_session = record session { transfer_request_id = some "t1" }

abbrev pub linked_world : World
linked_world = record (world_of (lost ∷ []) []) { sessions = linked_session ∷ [] }

abbrev pub expired_world : World
expired_world = record (world_of [] []) { sessions = session ∷ [] }
