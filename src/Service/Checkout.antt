-- ===== src/Service/Checkout.antt =====
-- The checkout sessions of src/app/service.rs: validation, status, and the submission of a transfer
-- to a session.
use solana_compliance_relaye.Prelude.{
  ℕ, ◌+◌, Bool, true, false, not, ◌&&◌, ◌||◌, Option, none, some, String, str_eq, opt_eq, leb, ◌==◌,
  all_chars, if◌then◌else◌,
}
use solana_compliance_relaye.Domain.Status.{
  BlockchainStatus, CheckoutSessionStatus, is_rejected, is_open, is_session_expired,
}
use solana_compliance_relaye.Domain.Error.{AppError, ValidationError}
use solana_compliance_relaye.Domain.Transfer.{
  TransferType, TransferRequest, SubmitTransferRequest, CreateCheckoutSessionRequest,
  CheckoutSession, CheckoutTransferSubmissionResponse,
}
use solana_compliance_relaye.Runtime.{
  Env, Result, ok, err, Action, pure, raise, lift, ask, ok_or, ◌>>=◌, ◌>>◌, not_found, seconds,
}
use solana_compliance_relaye.Database.Transfers.{get_transfer_request}
use solana_compliance_relaye.Database.Sessions.{
  insert_checkout_session, select_checkout_session, link_checkout_session_transfer,
}
use solana_compliance_relaye.Service.Backoff.{default_checkout_session_ttl_secs}
use solana_compliance_relaye.Service.Submit.{submit_transfer}

-- `char::is_whitespace`: the White_Space property of Unicode.
unfoldable pub is_whitespace : ℕ → Bool
is_whitespace c =
    (leb 9 c && leb c 13)
    || c == 32
    || c == 0x85
    || c == 0xa0
    || c == 0x1680
    || (leb 0x2000 c && leb c 0x200a)
    || c == 0x2028
    || c == 0x2029
    || c == 0x202f
    || c == 0x205f
    || c == 0x3000

-- `.trim().is_empty()`
unfoldable pub is_blank : String → Bool
unfolding is_whitespace
is_blank s = all_chars is_whitespace s

abbrev pub is_blank_option : Option String → Bool
is_blank_option none = false
is_blank_option (some s) = is_blank s

abbrev invalid : String → String → Result (Unit {0})
invalid field message = err (AppError.validation (ValidationError.invalid_field field message))

abbrev missing : String → Result (Unit {0})
missing field = err (AppError.validation (ValidationError.missing_field field))

-- Refuse a mismatch; the first one counts.
abbrev pub require : Bool → Result (Unit {0}) → Result (Unit {0}) → Result (Unit {0})
require true problem rest = rest
require false problem rest = problem

abbrev is_not_object : (String → Bool) → Option String → Bool
is_not_object is_object none = false
is_not_object is_object (some j) = not (is_object j)

unfoldable pub validate_checkout_session_request :
    (String → Bool) → CreateCheckoutSessionRequest → Result (Unit {0})
validate_checkout_session_request is_object r =
    require (not (is_blank r.merchant_id)) (missing "merchant_id") (
      require (not (is_blank r.merchant_reference)) (missing "merchant_reference") (
        require (not (is_blank r.destination_wallet)) (missing "destination_wallet") (
          require (not (r.amount == 0)) (invalid "amount" "Amount must be greater than 0") (
            require (not (is_blank_option r.token_mint))
              (invalid "token_mint" "Token mint cannot be empty when provided")
              (require (not (is_blank_option r.customer_wallet))
                (invalid "customer_wallet" "Customer wallet cannot be empty when provided")
                (require (not (is_not_object is_object r.merchant_metadata))
                  (invalid "merchant_metadata" "Merchant metadata must be a JSON object")
                  (ok tt)))))))

-- A session for no particular customer takes any sender.
abbrev pub is_customer : Option String → String → Bool
is_customer none from_address = true
is_customer (some wallet) from_address = str_eq from_address wallet

abbrev pub check_amount : ℕ → TransferType → Result (Unit {0})
check_amount amount (TransferType.public paid) =
    if paid == amount
    then ok tt
    else invalid "amount" "Transfer amount must match checkout session amount"
check_amount amount (TransferType.confidential _ _ _ _) =
    invalid "transfer_details" "Checkout sessions require public SOL or SPL token transfer payloads"

unfoldable pub validate_checkout_transfer_matches_session :
    CheckoutSession → SubmitTransferRequest → Result (Unit {0})
validate_checkout_transfer_matches_session s p =
    require (str_eq p.to_address s.destination_wallet)
      (invalid "to_address" "Transfer recipient must match checkout destination wallet")
      (require (opt_eq p.token_mint s.token_mint)
        (invalid "token_mint" "Transfer token mint must match checkout session")
        (require (is_customer s.customer_wallet p.from_address)
          (invalid "from_address" "Transfer sender must match checkout customer wallet")
          (check_amount s.amount p.transfer_details)))

-- The `match` on the blockchain status. `or_expired` looks at open sessions only, and none of these
-- is open.
unfoldable pub status_of_blockchain : BlockchainStatus → CheckoutSessionStatus
status_of_blockchain BlockchainStatus.confirmed = CheckoutSessionStatus.settled
status_of_blockchain BlockchainStatus.failed = CheckoutSessionStatus.failed
status_of_blockchain BlockchainStatus.expired = CheckoutSessionStatus.failed
status_of_blockchain _ = CheckoutSessionStatus.transfer_submitted

unfoldable pub or_expired : CheckoutSessionStatus → ℕ → ℕ → CheckoutSessionStatus
or_expired status expires_at now =
    if is_open status && leb expires_at now then CheckoutSessionStatus.expired else status

unfoldable pub checkout_status_from_transfer : TransferRequest → ℕ → ℕ → CheckoutSessionStatus
unfolding status_of_blockchain or_expired
checkout_status_from_transfer t expires_at now =
    if is_rejected t.compliance_status
    then CheckoutSessionStatus.rejected
    else or_expired (status_of_blockchain t.blockchain_status) expires_at now

module _ (env : Env) where
  unfoldable pub expiry : Option ℕ → Action ℕ
  unfolding ◌>>=◌
  expiry (some t) = pure t
  expiry none = do now ← ask env.clock; pure (now + seconds default_checkout_session_ttl_secs)

  unfoldable pub open_session_until : CreateCheckoutSessionRequest → ℕ → ℕ → Action CheckoutSession
  unfolding raise
  open_session_until r expires_at now =
      if leb expires_at now
      then raise (
          AppError.validation
            (ValidationError.invalid_field "expires_at" "Expiration must be in the future"))
      else insert_checkout_session env r expires_at

  unfoldable pub create_checkout_session : CreateCheckoutSessionRequest → Action CheckoutSession
  unfolding ◌>>=◌ expiry open_session_until
  create_checkout_session r = do
    lift (validate_checkout_session_request env.json_is_object r)
    expires_at ← expiry r.expires_at
    now ← ask env.clock
    open_session_until r expires_at now

  -- The status of a session with no transfer to derive it from.
  unfoldable pub hydrate_unlinked : CheckoutSession → Action CheckoutSession
  unfolding ◌>>=◌
  hydrate_unlinked s = do
    now ← ask env.clock
    pure (record s { status = or_expired s.status s.expires_at now })

  unfoldable pub hydrate_from : CheckoutSession → Option TransferRequest → Action CheckoutSession
  unfolding ◌>>=◌ hydrate_unlinked
  hydrate_from s none = hydrate_unlinked s
  hydrate_from s (some t) = do
    now ← ask env.clock
    pure (record s { status = checkout_status_from_transfer t s.expires_at now })

  unfoldable pub hydrate_linked : CheckoutSession → Option String → Action CheckoutSession
  unfolding ◌>>=◌ hydrate_from
  hydrate_linked s none = hydrate_unlinked s
  hydrate_linked s (some transfer_id) = do
    t ← get_transfer_request env transfer_id
    hydrate_from s t

  -- The session with its live status.
  unfoldable pub hydrate_checkout_status : CheckoutSession → Action CheckoutSession
  unfolding hydrate_linked
  hydrate_checkout_status s = hydrate_linked s s.transfer_request_id

  unfoldable pub hydrate_option : Option CheckoutSession → Action (Option CheckoutSession)
  unfolding ◌>>=◌
  hydrate_option none = pure none
  hydrate_option (some s) = do live ← hydrate_checkout_status s; pure (some live)

  unfoldable pub get_checkout_session : String → Action (Option CheckoutSession)
  unfolding ◌>>=◌ hydrate_option
  get_checkout_session i = do found ← select_checkout_session env i; hydrate_option found

  -- A session that has its transfer answers with it.
  unfoldable pub answer_linked :
      CheckoutSession → String → Action CheckoutTransferSubmissionResponse
  unfolding ◌>>=◌
  answer_linked s transfer_id = do
    found ← get_transfer_request env transfer_id
    t ← ok_or (not_found transfer_id) found
    now ← ask env.clock
    pure (record {
      session = record s { status = checkout_status_from_transfer t s.expires_at now };
      transfer_request = t;
    })

  unfoldable pub link_new :
      CheckoutSession → SubmitTransferRequest → Action CheckoutTransferSubmissionResponse
  unfolding ◌>>=◌
  link_new s payload = do
    lift (validate_checkout_transfer_matches_session s payload)
    t ← submit_transfer env payload
    now ← ask env.clock
    linked ←
        link_checkout_session_transfer env s.id t.id
          (checkout_status_from_transfer t s.expires_at now)
    pure (record { session = linked; transfer_request = t })

  unfoldable pub answer_or_link :
      CheckoutSession
      → SubmitTransferRequest
      → Option String
      → Action CheckoutTransferSubmissionResponse
  answer_or_link s payload (some transfer_id) = answer_linked s transfer_id
  answer_or_link s payload none = link_new s payload

  unfoldable pub submit_live :
      CheckoutSession → SubmitTransferRequest → Action CheckoutTransferSubmissionResponse
  unfolding raise
  submit_live s payload =
      if is_session_expired s.status
      then raise (
          AppError.validation
            (ValidationError.invalid_field "session" "Checkout session has expired"))
      else answer_or_link s payload s.transfer_request_id

  unfoldable pub submit_checkout_transfer :
      String → SubmitTransferRequest → Action CheckoutTransferSubmissionResponse
  unfolding ◌>>=◌
  submit_checkout_transfer session_id payload = do
    found ← select_checkout_session env session_id
    s ← ok_or (not_found session_id) found
    live ← hydrate_checkout_status s
    submit_live live payload
