-- ===== src/Risk/Range.antt =====
-- The Range compliance provider, src/infra/compliance/range.rs. Scores and thresholds are `i32`, which
-- the code only compares.
use solana_compliance_relaye.Prelude.{
  ℕ, ℤ, pos, int_leb, ◌⊎◌, inl, inr, Bool, ◌&&◌, ◌||◌, Option, none, some, String, ◌+++◌, str_eq,
  leb, ltb, lower_contains, lower_starts_with, if◌then◌else◌,
}
use solana_compliance_relaye.Domain.Status.{ComplianceStatus}
use solana_compliance_relaye.Domain.Error.{AppError, ExternalServiceError}
use solana_compliance_relaye.Domain.Transfer.{SubmitTransferRequest}
use solana_compliance_relaye.Runtime.{Result, ok, err, RiskResponse}

-- `RangeComplianceProvider`: without a key it is in mock mode.
pub record RangeComplianceProvider : Type 0 where
  pub api_key : Option String
  pub base_url : String
  pub risk_threshold : ℤ

unfoldable pub mock_check : String → ComplianceStatus
unfolding lower_starts_with
mock_check to_address =
    if str_eq to_address "hack_the_planet_bad_wallet"
    then ComplianceStatus.rejected
    else if lower_starts_with to_address "hack"
    then ComplianceStatus.rejected
    else ComplianceStatus.approved

-- What the API answers: no response; a status with the text of its body, or the error of reading it;
-- where the text is to be parsed, the error of parsing or the response.
pub data RangeOutcome : Type 0 where
  not_sent : String → RangeOutcome
  answered : ℕ → String ⊎ String → String ⊎ RiskResponse → RangeOutcome

unfoldable pub external : {A : Type 0} → ExternalServiceError → Result A
external e = err (AppError.external_service e)

-- `StatusCode::is_success`.
abbrev pub is_success_status : ℕ → Bool
is_success_status status = leb 200 status && ltb status 300

abbrev pub text_or_empty : String ⊎ String → String
text_or_empty (inl e) = ""
text_or_empty (inr text) = text

unfoldable pub parse_answer : String ⊎ String → String ⊎ RiskResponse → Result RiskResponse
unfolding external
parse_answer (inl e) parsed = external (ExternalServiceError.network e)
parse_answer (inr text) (inl e) =
    external
      (ExternalServiceError.parse_error ("JSON parse error: " +++ e +++ ". Raw body: " +++ text))
parse_answer (inr text) (inr response) = ok response

unfoldable pub read_answer : RangeOutcome → Result RiskResponse
unfolding external parse_answer
read_answer (RangeOutcome.not_sent e) = external (ExternalServiceError.network e)
read_answer (RangeOutcome.answered status body parsed) =
    if is_success_status status
    then parse_answer body parsed
    else external (ExternalServiceError.api_error status (text_or_empty body))

module _ (provider : RangeComplianceProvider) where
  unfoldable pub check_address_risk : RangeOutcome → Result RiskResponse
  unfolding read_answer external
  check_address_risk outcome = elim provider.api_key [
    | none ↦ external (ExternalServiceError.configuration "RANGE_API_KEY not configured")
    | some key ↦ read_answer outcome
  ]

-- The words of a risk level that count at a threshold.
unfoldable pub text_indicates_risk : ℤ → String → Bool
unfolding lower_contains
text_indicates_risk threshold level =
    (int_leb threshold (pos 6) && lower_contains level "high")
    || (int_leb threshold (pos 8)
        && (lower_contains level "severe" || lower_contains level "extremely"))
    || lower_contains level "critical"

abbrev pub status_of_risk : Bool → ComplianceStatus
status_of_risk is_high_risk =
    if is_high_risk then ComplianceStatus.rejected else ComplianceStatus.approved

module _ (provider : RangeComplianceProvider) where
  unfoldable pub evaluate_risk : RiskResponse → ComplianceStatus
  unfolding text_indicates_risk
  evaluate_risk response = status_of_risk (
      int_leb provider.risk_threshold response.risk_score
      || text_indicates_risk provider.risk_threshold response.risk_level)

  -- An error of the API is a rejection.
  unfoldable pub decide_risk :
      Option String → SubmitTransferRequest → Result RiskResponse → Result ComplianceStatus
  unfolding mock_check evaluate_risk
  decide_risk none request answer = ok (mock_check request.to_address)
  decide_risk (some key) request (ok response) = ok (evaluate_risk response)
  decide_risk (some key) request (err e) = ok ComplianceStatus.rejected

  unfoldable pub check_compliance : SubmitTransferRequest → RangeOutcome → Result ComplianceStatus
  unfolding decide_risk check_address_risk
  check_compliance request outcome =
      decide_risk provider.api_key request (check_address_risk provider outcome)
