-- ===== src/Database/Sessions.antt =====
-- The statements of src/infra/database/postgres.rs on checkout sessions and risk profiles.
use solana_compliance_relaye.Prelude.{
  ℕ, ◌+◌, Bool, true, false, ◌&&◌, Option, none, some, List, [], ◌∷◌, ◌++◌, String, str_eq, ltb,
  if◌then◌else◌,
}
use solana_compliance_relaye.Domain.Status.{CheckoutSessionStatus}
use solana_compliance_relaye.Domain.Error.{AppError, DatabaseError, SqlxError, from_sqlx}
use solana_compliance_relaye.Domain.Transfer.{
  CreateCheckoutSessionRequest, CheckoutSession, WalletRiskProfile,
}
use solana_compliance_relaye.Runtime.{Env, World, Result, ok, err, Action, seconds, not_found}
use solana_compliance_relaye.Database.Table.{find_where}
use solana_compliance_relaye.Database.Statement.{query_error, statement}

abbrev pub has_session_id : String → CheckoutSession → Bool
has_session_id i s = str_eq s.id i

unfoldable pub new_session : CreateCheckoutSessionRequest → String → ℕ → ℕ → CheckoutSession
new_session payload i expires_at now = record {
  id = i;
  merchant_id = payload.merchant_id;
  merchant_reference = payload.merchant_reference;
  destination_wallet = payload.destination_wallet;
  token_mint = payload.token_mint;
  amount = payload.amount;
  customer_wallet = payload.customer_wallet;
  status = CheckoutSessionStatus.open_session;
  expires_at = expires_at;
  merchant_metadata = payload.merchant_metadata;
  transfer_request_id = none;
  created_at = now;
  updated_at = now;
}

abbrev pub link_row : String → CheckoutSessionStatus → ℕ → CheckoutSession → CheckoutSession
link_row transfer_id status now s = record s {
  transfer_request_id = some transfer_id;
  status = status;
  updated_at = now;
}

abbrev pub link_rows :
    String → String → CheckoutSessionStatus → ℕ → List CheckoutSession → List CheckoutSession
link_rows i transfer_id status now [] = []
link_rows i transfer_id status now (s ∷ ss) =
    (if str_eq s.id i then link_row transfer_id status now s else s)
    ∷ link_rows i transfer_id status now ss

abbrev pub has_fresh_profile : String → ℕ → ℕ → WalletRiskProfile → Bool
has_fresh_profile address max_age now p =
    str_eq p.address address && ltb now (p.updated_at + seconds max_age)

-- ON CONFLICT (address) DO UPDATE keeps the time of creation.
abbrev pub upsert_rows : WalletRiskProfile → ℕ → List WalletRiskProfile → List WalletRiskProfile
upsert_rows p now [] = record p { created_at = now; updated_at = now } ∷ []
upsert_rows p now (q ∷ qs) =
    if str_eq q.address p.address
    then record p { created_at = q.created_at; updated_at = now } ∷ qs
    else q ∷ upsert_rows p now qs

-- Whether a 64-bit number is positive as a signed one.
abbrev pub is_positive_i64 : ℕ → Bool
is_positive_i64 n = ltb 0 n && ltb n 9223372036854775808

module _ (env : Env) where
  abbrev pub insert_session :
      CheckoutSession → Option CheckoutSession → World → Result CheckoutSession × World
  insert_session s (some _) w = (
    err (AppError.database (from_sqlx (SqlxError.database (some "23505") env.duplicate_key_text))),
    w,
  )
  insert_session s none w = (ok s, record w { sessions = w.sessions ++ s ∷ [] })

  -- CHECK (amount > 0), on the column of 64 signed bits: `amount as i64` is negative from 2^63 on.
  abbrev pub insert_checked :
      Bool → CheckoutSession → Option CheckoutSession → World → Result CheckoutSession × World
  insert_checked true s o w = insert_session s o w
  insert_checked false s o w = (
    err (
        AppError.database (from_sqlx (SqlxError.database (some "23514") env.check_violation_text))),
    w,
  )

  unfoldable pub insert_checkout_session : CreateCheckoutSessionRequest → ℕ → Action CheckoutSession
  unfolding new_session from_sqlx
  insert_checkout_session payload expires_at =
      statement env (λ e. AppError.database (from_sqlx e))
        λ now w.
          insert_checked (is_positive_i64 payload.amount)
            (new_session payload (env.new_uuid w.tick) expires_at now)
            (find_where (has_session_id (env.new_uuid w.tick)) w.sessions) w

  unfoldable pub select_checkout_session : String → Action (Option CheckoutSession)
  select_checkout_session i =
      statement env (query_error env) λ now w. (ok (find_where (has_session_id i) w.sessions), w)

  abbrev pub link_session :
      String
      → String
      → CheckoutSessionStatus
      → ℕ
      → Option CheckoutSession
      → World
      → Result CheckoutSession × World
  link_session i transfer_id status now none w = (err (not_found i), w)
  link_session i transfer_id status now (some s) w = (
    ok (link_row transfer_id status now s),
    record w { sessions = link_rows i transfer_id status now w.sessions },
  )

  unfoldable pub link_checkout_session_transfer :
      String → String → CheckoutSessionStatus → Action CheckoutSession
  link_checkout_session_transfer i transfer_id status =
      statement env (query_error env)
        λ now w. link_session i transfer_id status now (find_where (has_session_id i) w.sessions) w

  unfoldable pub get_risk_profile : String → ℕ → Action (Option WalletRiskProfile)
  get_risk_profile address max_age =
      statement env (query_error env)
        λ now w. (ok (find_where (has_fresh_profile address max_age now) w.profiles), w)

  unfoldable pub upsert_risk_profile : WalletRiskProfile → Action (Unit {0})
  upsert_risk_profile p =
      statement env (query_error env)
        λ now w. (ok tt, record w { profiles = upsert_rows p now w.profiles })

  -- `SELECT 1`, whose failure is a connection error.
  unfoldable pub database_health : Action (Unit {0})
  database_health =
      statement env (λ e. AppError.database (DatabaseError.connection (env.sqlx_text e)))
        λ now w. (ok tt, w)
