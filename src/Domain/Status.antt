-- ===== src/Domain/Status.antt =====
-- The status enums of src/domain/types.rs, with the texts under which the database stores them.
use solana_compliance_relaye.Prelude.{
  Bool, true, false, Option, none, some, String, str_eq, if◌then◌else◌,
}

pub data BlockchainStatus : Type 0 where
  received pending pending_submission processing submitted confirmed failed expired :
      BlockchainStatus

pub data ComplianceStatus : Type 0 where
  pending approved rejected : ComplianceStatus

pub data LastErrorType : Type 0 where
  no_error jito_state_unknown jito_bundle_failed transaction_failed network_error validation_error :
      LastErrorType

pub data CheckoutSessionStatus : Type 0 where
  open_session transfer_submitted settled rejected expired failed : CheckoutSessionStatus

pub data HealthStatus : Type 0 where
  healthy degraded unhealthy : HealthStatus

pub data TransactionStatus : Type 0 where
  confirmed finalized : TransactionStatus
  failed : String → TransactionStatus

pub BlockchainStatus-discrete : Discrete BlockchainStatus
BlockchainStatus-discrete = hlevel

-- `PartialEq` of the enums that the code compares.
abbrev pub is_pending_submission : BlockchainStatus → Bool
is_pending_submission BlockchainStatus.pending_submission = true
is_pending_submission _ = false

abbrev pub is_processing : BlockchainStatus → Bool
is_processing BlockchainStatus.processing = true
is_processing _ = false

abbrev pub is_submitted : BlockchainStatus → Bool
is_submitted BlockchainStatus.submitted = true
is_submitted _ = false

abbrev pub is_confirmed : BlockchainStatus → Bool
is_confirmed BlockchainStatus.confirmed = true
is_confirmed _ = false

abbrev pub is_failed : BlockchainStatus → Bool
is_failed BlockchainStatus.failed = true
is_failed _ = false

abbrev pub is_expired : BlockchainStatus → Bool
is_expired BlockchainStatus.expired = true
is_expired _ = false

abbrev pub is_approved : ComplianceStatus → Bool
is_approved ComplianceStatus.approved = true
is_approved _ = false

abbrev pub is_rejected : ComplianceStatus → Bool
is_rejected ComplianceStatus.rejected = true
is_rejected _ = false

abbrev pub is_jito_state_unknown : LastErrorType → Bool
is_jito_state_unknown LastErrorType.jito_state_unknown = true
is_jito_state_unknown _ = false

abbrev pub is_no_error : LastErrorType → Bool
is_no_error LastErrorType.no_error = true
is_no_error _ = false

abbrev pub is_open : CheckoutSessionStatus → Bool
is_open CheckoutSessionStatus.open_session = true
is_open _ = false

abbrev pub is_session_expired : CheckoutSessionStatus → Bool
is_session_expired CheckoutSessionStatus.expired = true
is_session_expired _ = false

-- `BlockchainStatus::is_terminal`.
unfoldable pub is_terminal : BlockchainStatus → Bool
is_terminal BlockchainStatus.confirmed = true
is_terminal BlockchainStatus.failed = true
is_terminal BlockchainStatus.expired = true
is_terminal _ = false

-- `LastErrorType::requires_status_check` and `safe_to_retry_new_blockhash`.
unfoldable pub requires_status_check : LastErrorType → Bool
requires_status_check LastErrorType.jito_state_unknown = true
requires_status_check _ = false

unfoldable pub safe_to_retry_new_blockhash : LastErrorType → Bool
safe_to_retry_new_blockhash LastErrorType.no_error = true
safe_to_retry_new_blockhash LastErrorType.jito_bundle_failed = true
safe_to_retry_new_blockhash LastErrorType.transaction_failed = true
safe_to_retry_new_blockhash LastErrorType.network_error = true
safe_to_retry_new_blockhash _ = false

unfoldable pub blockchain_as_str : BlockchainStatus → String
blockchain_as_str BlockchainStatus.received = "received"
blockchain_as_str BlockchainStatus.pending = "pending"
blockchain_as_str BlockchainStatus.pending_submission = "pending_submission"
blockchain_as_str BlockchainStatus.processing = "processing"
blockchain_as_str BlockchainStatus.submitted = "submitted"
blockchain_as_str BlockchainStatus.confirmed = "confirmed"
blockchain_as_str BlockchainStatus.failed = "failed"
blockchain_as_str BlockchainStatus.expired = "expired"

-- `from_str`; the text of the parse error is dropped, as every caller drops it.
unfoldable pub blockchain_from_str : String → Option BlockchainStatus
blockchain_from_str s =
    if str_eq s "received"
    then some BlockchainStatus.received
    else if str_eq s "pending"
    then some BlockchainStatus.pending
    else if str_eq s "pending_submission"
    then some BlockchainStatus.pending_submission
    else if str_eq s "processing"
    then some BlockchainStatus.processing
    else if str_eq s "submitted"
    then some BlockchainStatus.submitted
    else if str_eq s "confirmed"
    then some BlockchainStatus.confirmed
    else if str_eq s "failed"
    then some BlockchainStatus.failed
    else if str_eq s "expired"
    then some BlockchainStatus.expired
    else none

unfoldable pub compliance_as_str : ComplianceStatus → String
compliance_as_str ComplianceStatus.pending = "pending"
compliance_as_str ComplianceStatus.approved = "approved"
compliance_as_str ComplianceStatus.rejected = "rejected"

unfoldable pub compliance_from_str : String → Option ComplianceStatus
compliance_from_str s =
    if str_eq s "pending"
    then some ComplianceStatus.pending
    else if str_eq s "approved"
    then some ComplianceStatus.approved
    else if str_eq s "rejected"
    then some ComplianceStatus.rejected
    else none

unfoldable pub error_type_as_str : LastErrorType → String
error_type_as_str LastErrorType.no_error = "none"
error_type_as_str LastErrorType.jito_state_unknown = "jito_state_unknown"
error_type_as_str LastErrorType.jito_bundle_failed = "jito_bundle_failed"
error_type_as_str LastErrorType.transaction_failed = "transaction_failed"
error_type_as_str LastErrorType.network_error = "network_error"
error_type_as_str LastErrorType.validation_error = "validation_error"

unfoldable pub error_type_from_str : String → Option LastErrorType
error_type_from_str s =
    if str_eq s "none"
    then some LastErrorType.no_error
    else if str_eq s "jito_state_unknown"
    then some LastErrorType.jito_state_unknown
    else if str_eq s "jito_bundle_failed"
    then some LastErrorType.jito_bundle_failed
    else if str_eq s "transaction_failed"
    then some LastErrorType.transaction_failed
    else if str_eq s "network_error"
    then some LastErrorType.network_error
    else if str_eq s "validation_error"
    then some LastErrorType.validation_error
    else none

unfoldable pub checkout_as_str : CheckoutSessionStatus → String
checkout_as_str CheckoutSessionStatus.open_session = "open"
checkout_as_str CheckoutSessionStatus.transfer_submitted = "transfer_submitted"
checkout_as_str CheckoutSessionStatus.settled = "settled"
checkout_as_str CheckoutSessionStatus.rejected = "rejected"
checkout_as_str CheckoutSessionStatus.expired = "expired"
checkout_as_str CheckoutSessionStatus.failed = "failed"

unfoldable pub checkout_from_str : String → Option CheckoutSessionStatus
checkout_from_str s =
    if str_eq s "open"
    then some CheckoutSessionStatus.open_session
    else if str_eq s "transfer_submitted"
    then some CheckoutSessionStatus.transfer_submitted
    else if str_eq s "settled"
    then some CheckoutSessionStatus.settled
    else if str_eq s "rejected"
    then some CheckoutSessionStatus.rejected
    else if str_eq s "expired"
    then some CheckoutSessionStatus.expired
    else if str_eq s "failed"
    then some CheckoutSessionStatus.failed
    else none
