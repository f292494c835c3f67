-- ===== src/Domain/Codec.antt =====
-- The texts of the statuses and their parsers, src/domain/types.rs.
use solana_compliance_relaye.Prelude.{◌≡◌, ◌↔◌, refl, ap, ◌∙◌, some, String, eq_iff, arith}
use solana_compliance_relaye.Domain.Status.{
  BlockchainStatus, ComplianceStatus, LastErrorType, CheckoutSessionStatus, blockchain_as_str,
  blockchain_from_str, compliance_as_str, compliance_from_str, error_type_as_str,
  error_type_from_str, checkout_as_str, checkout_from_str,
}

blockchain_prints : (x : BlockchainStatus) → blockchain_from_str (blockchain_as_str x) ≡ some x
unfolding blockchain_from_str blockchain_as_str
blockchain_prints BlockchainStatus.received = refl
blockchain_prints BlockchainStatus.pending = refl
blockchain_prints BlockchainStatus.pending_submission = refl
blockchain_prints BlockchainStatus.processing = refl
blockchain_prints BlockchainStatus.submitted = refl
blockchain_prints BlockchainStatus.confirmed = refl
blockchain_prints BlockchainStatus.failed = refl
blockchain_prints BlockchainStatus.expired = refl

blockchain_parses :
    (s : String) (x : BlockchainStatus) → blockchain_from_str s ≡ some x → s ≡ blockchain_as_str x
unfolding blockchain_from_str blockchain_as_str
blockchain_parses s x e = ground (
  arith,
  eq_iff s "received",
  eq_iff s "pending",
  eq_iff s "pending_submission",
  eq_iff s "processing",
  eq_iff s "submitted",
  eq_iff s "confirmed",
  eq_iff s "failed",
  eq_iff s "expired",
)

compliance_prints : (x : ComplianceStatus) → compliance_from_str (compliance_as_str x) ≡ some x
unfolding compliance_from_str compliance_as_str
compliance_prints ComplianceStatus.pending = refl
compliance_prints ComplianceStatus.approved = refl
compliance_prints ComplianceStatus.rejected = refl

compliance_parses :
    (s : String) (x : ComplianceStatus) → compliance_from_str s ≡ some x → s ≡ compliance_as_str x
unfolding compliance_from_str compliance_as_str
compliance_parses s x e =
    ground (arith, eq_iff s "pending", eq_iff s "approved", eq_iff s "rejected")

error_type_prints : (x : LastErrorType) → error_type_from_str (error_type_as_str x) ≡ some x
unfolding error_type_from_str error_type_as_str
error_type_prints LastErrorType.no_error = refl
error_type_prints LastErrorType.jito_state_unknown = refl
error_type_prints LastErrorType.jito_bundle_failed = refl
error_type_prints LastErrorType.transaction_failed = refl
error_type_prints LastErrorType.network_error = refl
error_type_prints LastErrorType.validation_error = refl

error_type_parses :
    (s : String) (x : LastErrorType) → error_type_from_str s ≡ some x → s ≡ error_type_as_str x
unfolding error_type_from_str error_type_as_str
error_type_parses s x e = ground (
  arith,
  eq_iff s "none",
  eq_iff s "jito_state_unknown",
  eq_iff s "jito_bundle_failed",
  eq_iff s "transaction_failed",
  eq_iff s "network_error",
  eq_iff s "validation_error",
)

checkout_prints : (x : CheckoutSessionStatus) → checkout_from_str (checkout_as_str x) ≡ some x
unfolding checkout_from_str checkout_as_str
checkout_prints CheckoutSessionStatus.open_session = refl
checkout_prints CheckoutSessionStatus.transfer_submitted = refl
checkout_prints CheckoutSessionStatus.settled = refl
checkout_prints CheckoutSessionStatus.rejected = refl
checkout_prints CheckoutSessionStatus.expired = refl
checkout_prints CheckoutSessionStatus.failed = refl

checkout_parses :
    (s : String) (x : CheckoutSessionStatus) → checkout_from_str s ≡ some x → s ≡ checkout_as_str x
unfolding checkout_from_str checkout_as_str
checkout_parses s x e = ground (
  arith,
  eq_iff s "open",
  eq_iff s "transfer_submitted",
  eq_iff s "settled",
  eq_iff s "rejected",
  eq_iff s "expired",
  eq_iff s "failed",
)

-- The stored text of a status determines it: a text parses to a status exactly when it is the text
-- of that status, for the four enums that the database keeps.
pub status_codecs :
    (s : String) (b : BlockchainStatus) (c : ComplianceStatus) (l : LastErrorType)
    (k : CheckoutSessionStatus)
    → ((blockchain_from_str s ≡ some b) ↔ (s ≡ blockchain_as_str b))
      × ((compliance_from_str s ≡ some c) ↔ (s ≡ compliance_as_str c))
      × ((error_type_from_str s ≡ some l) ↔ (s ≡ error_type_as_str l))
      × ((checkout_from_str s ≡ some k) ↔ (s ≡ checkout_as_str k))
status_codecs s b c l k = (
  (blockchain_parses s b, λ e. ap blockchain_from_str e ∙ blockchain_prints b),
  (compliance_parses s c, λ e. ap compliance_from_str e ∙ compliance_prints c),
  (error_type_parses s l, λ e. ap error_type_from_str e ∙ error_type_prints l),
  (checkout_parses s k, λ e. ap checkout_from_str e ∙ checkout_prints k),
)
