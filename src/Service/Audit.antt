-- ===== src/Service/Audit.antt =====
-- `AppService::get_transfer_audit_report` and its helpers: what an auditor is told of a transfer.
use solana_compliance_relaye.Prelude.{
  ℤ, ℕ, Bool, true, false, not, ◌||◌, Option, none, some, String, ◌+++◌, strip_prefix, ltb, is_some,
  List, [], ◌∷◌, ◌++◌, unwrap_or, if◌then◌else◌,
}
use solana_compliance_relaye.Domain.Status.{
  BlockchainStatus, ComplianceStatus, LastErrorType, is_confirmed, is_rejected, is_failed,
  is_expired, is_approved, is_no_error,
}
use solana_compliance_relaye.Domain.Transfer.{TransferType, TransferRequest, WalletRiskProfile}
use solana_compliance_relaye.Runtime.{Env, World, Action, pure, gets, ◌>>=◌}
use solana_compliance_relaye.Database.Transfers.{get_transfer_request}
use solana_compliance_relaye.Database.Sessions.{get_risk_profile}
use solana_compliance_relaye.Blocklist.{check_address}
use solana_compliance_relaye.Service.Backoff.{audit_risk_profile_max_age_secs}

pub data AuditAssetType : Type 0 where
  native_sol spl_token token2022_confidential : AuditAssetType

pub data AuditAmount : Type 0 where
  public : ℕ → AuditAmount
  confidential : String → AuditAmount

pub data AuditFinalDecision : Type 0 where
  approved_for_settlement rejected_before_settlement settled failed_or_expired : AuditFinalDecision

pub record InternalBlocklistHit : Type 0 where
  pub address : String
  pub role : String
  pub reason : String

pub record PrivateSubmissionAuditMetadata : Type 0 where
  pub original_tx_signature : Option String
  pub last_error_type : LastErrorType
  pub blockhash_used : Option String
  pub retry_count : ℕ
  pub next_retry_at : Option ℕ

pub record TransferAuditReport : Type 0 where
  pub transfer_id : String
  pub sender_address : String
  pub recipient_address : String
  pub asset_type : AuditAssetType
  pub token_mint : Option String
  pub amount : AuditAmount
  pub nonce : Option String
  pub compliance_status : ComplianceStatus
  pub blockchain_status : BlockchainStatus
  pub risk_decision_summary : String
  pub rejection_reason : Option String
  pub internal_blocklist_hits : List InternalBlocklistHit
  pub range_risk_score : Option ℤ
  pub range_risk_level : Option String
  pub helius_asset_screening_status : Option String
  pub blockchain_signature : Option String
  pub original_tx_signature : Option String
  pub private_submission_metadata : Option PrivateSubmissionAuditMetadata
  pub created_at : ℕ
  pub updated_at : ℕ
  pub final_decision : AuditFinalDecision

unfoldable pub audit_final_decision : TransferRequest → AuditFinalDecision
audit_final_decision t =
    if is_confirmed t.blockchain_status
    then AuditFinalDecision.settled
    else if is_rejected t.compliance_status
    then AuditFinalDecision.rejected_before_settlement
    else if is_failed t.blockchain_status || is_expired t.blockchain_status
    then AuditFinalDecision.failed_or_expired
    else AuditFinalDecision.approved_for_settlement

summary_of : AuditFinalDecision → ComplianceStatus → Option String → String
summary_of AuditFinalDecision.settled c reason =
    "Transfer settled on-chain after compliance approval."
summary_of AuditFinalDecision.rejected_before_settlement c reason =
    "Rejected before settlement: " +++ unwrap_or reason "compliance policy rejected the transfer"
summary_of AuditFinalDecision.failed_or_expired c reason =
    "Transfer did not settle: " +++ unwrap_or reason "blockchain submission failed or expired"
summary_of AuditFinalDecision.approved_for_settlement c reason =
    if is_approved c
    then "Approved by compliance controls and queued or submitted for settlement."
    else "Compliance decision pending; transfer has not reached final settlement."

unfoldable pub audit_risk_decision_summary : TransferRequest → Option String → String
unfolding summary_of audit_final_decision
audit_risk_decision_summary t reason =
    summary_of (audit_final_decision t) t.compliance_status reason

unfoldable pub has_submission_metadata : TransferRequest → Bool
has_submission_metadata t =
    is_some t.original_tx_signature
    || is_some t.blockhash_used
    || ltb 0 t.blockchain_retry_count
    || not (is_no_error t.last_error_type)
    || is_some t.blockchain_next_retry_at

unfoldable pub private_submission_metadata : TransferRequest → Option PrivateSubmissionAuditMetadata
unfolding has_submission_metadata
private_submission_metadata t =
    if has_submission_metadata t
    then some (record {
      original_tx_signature = t.original_tx_signature;
      last_error_type = t.last_error_type;
      blockhash_used = t.blockhash_used;
      retry_count = t.blockchain_retry_count;
      next_retry_at = t.blockchain_next_retry_at;
    })
    else none

hit_of : String → String → Option String → List InternalBlocklistHit
hit_of address role none = []
hit_of address role (some reason) = record { address = address; role = role; reason = reason } ∷ []

past_reason : Option String → Option String
past_reason none = none
past_reason (some e) = strip_prefix e "Blocklist: "

-- The text of an old rejection counts only when nothing is listed now.
or_past : TransferRequest → List InternalBlocklistHit → List InternalBlocklistHit
unfolding hit_of past_reason
or_past t [] = hit_of t.to_address "unknown" (past_reason t.blockchain_last_error)
or_past t (h ∷ hs) = h ∷ hs

unfoldable pub collect_blocklist_hits : TransferRequest → World → List InternalBlocklistHit
unfolding hit_of or_past check_address
collect_blocklist_hits t w = or_past t (
    hit_of t.from_address "sender" (check_address t.from_address w)
    ++ hit_of t.to_address "recipient" (check_address t.to_address w))

asset_type_of : TransferType → Option String → AuditAssetType
asset_type_of (TransferType.public _) mint =
    if is_some mint then AuditAssetType.spl_token else AuditAssetType.native_sol
asset_type_of (TransferType.confidential _ _ _ _) mint = AuditAssetType.token2022_confidential

amount_of : TransferType → AuditAmount
amount_of (TransferType.public amount) = AuditAmount.public amount
amount_of (TransferType.confidential _ _ _ _) =
    AuditAmount.confidential "token_2022_confidential_amount"

helius_status : Bool → Bool → String
helius_status true true = "sanctioned_assets_detected"
helius_status true false = "clear"
helius_status false _ = "not_checked"

score_of : Option WalletRiskProfile → Option ℤ
score_of none = none
score_of (some p) = p.risk_score

level_of : Option WalletRiskProfile → Option String
level_of none = none
level_of (some p) = p.risk_level

screening_of : Option WalletRiskProfile → Option String
unfolding helius_status
screening_of none = none
screening_of (some p) = some (helius_status p.helius_assets_checked p.has_sanctioned_assets)

unfoldable pub audit_report :
    TransferRequest → Option WalletRiskProfile → List InternalBlocklistHit → TransferAuditReport
unfolding asset_type_of amount_of score_of level_of screening_of
audit_report t profile hits = record {
  transfer_id = t.id;
  sender_address = t.from_address;
  recipient_address = t.to_address;
  asset_type = asset_type_of t.transfer_details t.token_mint;
  token_mint = t.token_mint;
  amount = amount_of t.transfer_details;
  nonce = t.nonce;
  compliance_status = t.compliance_status;
  blockchain_status = t.blockchain_status;
  risk_decision_summary = audit_risk_decision_summary t t.blockchain_last_error;
  rejection_reason = t.blockchain_last_error;
  internal_blocklist_hits = hits;
  range_risk_score = score_of profile;
  range_risk_level = level_of profile;
  helius_asset_screening_status = screening_of profile;
  blockchain_signature = t.blockchain_signature;
  original_tx_signature = t.original_tx_signature;
  private_submission_metadata = private_submission_metadata t;
  created_at = t.created_at;
  updated_at = t.updated_at;
  final_decision = audit_final_decision t;
}

module _ (env : Env) where
  unfoldable pub report_found : Option TransferRequest → Action (Option TransferAuditReport)
  unfolding ◌>>=◌
  report_found none = pure none
  report_found (some t) = do
    profile ← get_risk_profile env t.to_address audit_risk_profile_max_age_secs
    hits ← gets (collect_blocklist_hits t)
    pure (some (audit_report t profile hits))

  unfoldable pub get_transfer_audit_report : String → Action (Option TransferAuditReport)
  unfolding ◌>>=◌ report_found
  get_transfer_audit_report i = do found ← get_transfer_request env i; report_found found
