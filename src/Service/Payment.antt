-- ===== src/Service/Payment.antt =====
-- What a checkout session of src/app/service.rs accepts as its payment, and how it answers.
use solana_compliance_relaye.Prelude.{
  ℕ, ◌≡◌, ◌↔◌, ◌⊎◌, refl, ap, Bool, true, false, Option, none, some, String, str_eq, opt_eq, eq_iff,
  str_eq_self, ◌||◌, arith, if◌then◌else◌, inl, inr,
}
use solana_compliance_relaye.Domain.Status.{
  BlockchainStatus, CheckoutSessionStatus, is_rejected, is_confirmed, is_failed, is_expired,
}
use solana_compliance_relaye.Domain.Transfer.{
  TransferType, TransferRequest, SubmitTransferRequest, CheckoutSession,
}
use solana_compliance_relaye.Domain.Error.{AppError}
use solana_compliance_relaye.Runtime.{Result, ok, err}
use solana_compliance_relaye.Service.Checkout.{
  require, is_customer, check_amount, validate_checkout_transfer_matches_session,
  status_of_blockchain, or_expired, checkout_status_from_transfer,
}

-- The payment that a session asks for.
pub record IsPayment (s : CheckoutSession) (p : SubmitTransferRequest) : Type 0 where
  pub recipient : p.to_address ≡ s.destination_wallet
  pub mint : p.token_mint ≡ s.token_mint
  pub sender : (s.customer_wallet ≡ none) ⊎ (s.customer_wallet ≡ some p.from_address)
  pub details : p.transfer_details ≡ TransferType.public s.amount

require-ok :
    (b : Bool) (x : AppError) (rest : Result (Unit {0}))
    → require b (err x) rest ≡ ok tt
    → (b ≡ true) × (rest ≡ ok tt)
require-ok true x rest e = (refl, e)
require-ok false x rest e = ground arith

opt_eq-eq : (a b : Option String) → opt_eq a b ≡ true → a ≡ b
opt_eq-eq none none e = refl
opt_eq-eq (some a) (some b) e = ap some (ground (arith, eq_iff a b))
opt_eq-eq none (some b) e = ground arith
opt_eq-eq (some a) none e = ground arith

opt_eq_self : (a : Option String) → opt_eq a a ≡ true
opt_eq_self none = refl
opt_eq_self (some a) = str_eq_self a

is_customer-eq :
    (c : Option String) (a : String) → is_customer c a ≡ true → (c ≡ none) ⊎ (c ≡ some a)
is_customer-eq none a e = inl refl
is_customer-eq (some c) a e = inr (ap some (ground (arith, eq_iff a c)))

is_customer-holds :
    (c : Option String) (a : String) → (c ≡ none) ⊎ (c ≡ some a) → is_customer c a ≡ true
is_customer-holds c a (inl e) = rw e refl
is_customer-holds c a (inr e) = rw e (str_eq_self a)

check_amount-ok :
    (amount : ℕ) (d : TransferType) → check_amount amount d ≡ ok tt → d ≡ TransferType.public amount
check_amount-ok amount (TransferType.public paid) e = ap TransferType.public (ground arith)
check_amount-ok amount (TransferType.confidential _ _ _ _) e = ground arith

check_amount_self : (amount : ℕ) → check_amount amount (TransferType.public amount) ≡ ok tt
check_amount_self amount = ground arith

matches-IsPayment :
    (s : CheckoutSession) (p : SubmitTransferRequest)
    → validate_checkout_transfer_matches_session s p ≡ ok tt
    → IsPayment s p
unfolding validate_checkout_transfer_matches_session
matches-IsPayment s p e =
    let a = require-ok (str_eq p.to_address s.destination_wallet) _ _ e in
    let b = require-ok (opt_eq p.token_mint s.token_mint) _ _ a.1 in
    let c = require-ok (is_customer s.customer_wallet p.from_address) _ _ b.1 in
    record {
      recipient = ground (arith, a.0, eq_iff p.to_address s.destination_wallet);
      mint = opt_eq-eq p.token_mint s.token_mint b.0;
      sender = is_customer-eq s.customer_wallet p.from_address c.0;
      details = check_amount-ok s.amount p.transfer_details c.1;
    }

payment_matches :
    (s : CheckoutSession) (p : SubmitTransferRequest)
    → IsPayment s p
    → validate_checkout_transfer_matches_session s p ≡ ok tt
unfolding validate_checkout_transfer_matches_session
payment_matches s p h =
    rw
      (
        h.recipient,
        h.mint,
        h.details,
        str_eq_self s.destination_wallet,
        opt_eq_self s.token_mint,
        is_customer-holds s.customer_wallet p.from_address h.sender,
      )
      (check_amount_self s.amount)

-- A transfer is accepted as the payment of a session exactly when it goes to the session's wallet, in
-- the session's mint, from the session's customer if it names one, and is a public transfer of
-- exactly the session's amount.
pub validate_checkout_transfer_iff :
    (s : CheckoutSession) (p : SubmitTransferRequest)
    → (validate_checkout_transfer_matches_session s p ≡ ok tt) ↔ IsPayment s p
validate_checkout_transfer_iff s p = (matches-IsPayment s p, payment_matches s p)

-- The live status of a session with a transfer is rejected exactly when compliance rejected the
-- transfer, settled exactly when the transfer is confirmed and not rejected, failed exactly when it
-- failed or expired and is not rejected, and otherwise transfer_submitted; the session's own expiry
-- has no part in it.
pub checkout_status_cases :
    (t : TransferRequest) (expires_at now : ℕ)
    → checkout_status_from_transfer t expires_at now ≡ (
        if is_rejected t.compliance_status
        then CheckoutSessionStatus.rejected
        else if is_confirmed t.blockchain_status
        then CheckoutSessionStatus.settled
        else if is_failed t.blockchain_status || is_expired t.blockchain_status
        then CheckoutSessionStatus.failed
        else CheckoutSessionStatus.transfer_submitted)
unfolding checkout_status_from_transfer or_expired status_of_blockchain
checkout_status_cases t expires_at now =
    ap (λ x. if is_rejected t.compliance_status then CheckoutSessionStatus.rejected else x)
      (live t.blockchain_status)
  where
    live :
        (b : BlockchainStatus)
        → or_expired (status_of_blockchain b) expires_at now ≡ (
            if is_confirmed b
            then CheckoutSessionStatus.settled
            else if is_failed b || is_expired b
            then CheckoutSessionStatus.failed
            else CheckoutSessionStatus.transfer_submitted)
    live BlockchainStatus.received = refl
    live BlockchainStatus.pending = refl
    live BlockchainStatus.pending_submission = refl
    live BlockchainStatus.processing = refl
    live BlockchainStatus.submitted = refl
    live BlockchainStatus.confirmed = refl
    live BlockchainStatus.failed = refl
    live BlockchainStatus.expired = refl
