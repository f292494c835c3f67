-- ===== src/Api/Handlers.antt =====
-- The handlers of src/api/handlers.rs, admin.rs, audit.rs and checkout.rs on transfers, checkout
-- sessions, the blocklist, wallet risk and health.
use solana_compliance_relaye.Prelude.{
  ℕ, Bool, true, false, not, Option, none, some, String, str_eq, ◌+++◌, is_some, if◌then◌else◌,
}
use solana_compliance_relaye.Domain.Status.{HealthStatus}
use solana_compliance_relaye.Domain.Transfer.{
  TransferRequest, SubmitTransferRequest, CheckoutSession,
}
use solana_compliance_relaye.Domain.Error.{AppError, ValidationError}
use solana_compliance_relaye.Runtime.{
  Env, Action, Result, ok, err, pure, raise, lift, gets, ok_or, ◌>>=◌, ◌>>◌, not_found,
}
use solana_compliance_relaye.Database.Transfers.{get_transfer_request, find_by_nonce}
use solana_compliance_relaye.Blocklist.{add_address, remove_address}
use solana_compliance_relaye.Risk.{RiskCheckResult, check_wallet_risk}
use solana_compliance_relaye.Service.Submit.{submit_transfer}
use solana_compliance_relaye.Service.Audit.{TransferAuditReport, get_transfer_audit_report}
use solana_compliance_relaye.Service.Health.{health_check}
use solana_compliance_relaye.Service.Checkout.{is_blank, get_checkout_session}

-- The optional `Idempotency-Key` must be the nonce of the body.
unfoldable pub idempotency_check : Option String → String → Result (Unit {0})
idempotency_check none nonce = ok tt
idempotency_check (some key) nonce =
    if str_eq key nonce
    then ok tt
    else err (
        AppError.validation
          (ValidationError.invalid_field "Idempotency-Key" "Header must match body nonce"))

abbrev not_configured : AppError
not_configured = AppError.not_supported "Blocklist not configured"

abbrev missing : String → AppError
missing field = AppError.validation (ValidationError.missing_field field)

-- Go on, or answer this error.
abbrev pub require : Bool → AppError → Action (Unit {0})
require true e = pure tt
require false e = raise e

module _ (env : Env) where
  unfoldable pub existing_or_submit :
      SubmitTransferRequest → Option TransferRequest → Action TransferRequest
  existing_or_submit payload (some existing) = pure existing
  existing_or_submit payload none = submit_transfer env payload

  unfoldable pub submit_transfer_handler :
      Option String → SubmitTransferRequest → Action TransferRequest
  unfolding ◌>>=◌ existing_or_submit
  submit_transfer_handler idempotency_key payload =
      lift (idempotency_check idempotency_key payload.nonce)
      >> (find_by_nonce env payload.from_address payload.nonce >>= λ existing.
          existing_or_submit payload existing)

  unfoldable pub get_transfer_request_handler : String → Action TransferRequest
  unfolding ◌>>=◌
  get_transfer_request_handler id = do
    found ← get_transfer_request env id
    ok_or (not_found id) found

  unfoldable pub get_transfer_audit_report_handler : String → Action TransferAuditReport
  unfolding ◌>>=◌
  get_transfer_audit_report_handler id = do
    found ← get_transfer_audit_report env id
    ok_or (not_found id) found

  unfoldable pub get_checkout_session_handler : String → Action CheckoutSession
  unfolding ◌>>=◌
  get_checkout_session_handler id = do
    found ← get_checkout_session env id
    ok_or (not_found id) found

  unfoldable pub ready_status : HealthStatus → ℕ
  ready_status HealthStatus.unhealthy = 503
  ready_status _ = 200

  unfoldable pub readiness_handler : Action ℕ
  unfolding ◌>>=◌
  readiness_handler = do health ← health_check env; pure (ready_status health.status)

  unfoldable pub risk_of : Option ℕ → String → Action RiskCheckResult
  risk_of none address = raise (AppError.not_supported "Risk check service not configured")
  risk_of (some max_age) address = check_wallet_risk env max_age address

  unfoldable pub risk_check_handler : Option ℕ → String → Action RiskCheckResult
  unfolding ◌>>=◌ risk_of
  risk_check_handler risk_service address =
      require (not (is_blank address))
        (AppError.validation (ValidationError.invalid_field "address" "Address is required"))
      >> risk_of risk_service address

  -- The text that the response carries.
  unfoldable pub add_blocklist_handler : String → String → Action String
  unfolding ◌>>=◌
  add_blocklist_handler address reason = do
    require (not (is_blank address)) (missing "address")
    require (not (is_blank reason)) (missing "reason")
    present ← gets (λ w. is_some w.blocklist)
    require present not_configured
    add_address env address reason
    pure ("Address " +++ address +++ " added to blocklist")

  unfoldable pub remove_blocklist_handler : String → Action String
  unfolding ◌>>=◌
  remove_blocklist_handler address = do
    present ← gets (λ w. is_some w.blocklist)
    require present not_configured
    removed ← remove_address env address
    require removed (not_found ("Address " +++ address +++ " not found in blocklist"))
    pure ("Address " +++ address +++ " removed from blocklist")
