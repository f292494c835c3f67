-- ===== src/Runtime.antt =====
-- What the service runs on. `World` is the state: the database's tables, the in-memory blocklist and
-- the record of what was handed to the blockchain client. `Env` is everything that answers from
-- outside src/ or through a trait object: each answer is a function of the number of effects
-- performed so far, so any sequence of answers, faults included, is some `Env`.

pub mod Keeps
pub mod Fails
use solana_compliance_relaye.Prelude.{
  ℤ, ℕ, suc, ◌≡◌, refl, ap, ◌*◌, ◌⊎◌, Bool, Option, none, some, List, String,
}
use solana_compliance_relaye.Domain.Status.{ComplianceStatus, TransactionStatus}
use solana_compliance_relaye.Domain.Error.{AppError, DatabaseError, SqlxError}
use solana_compliance_relaye.Domain.Transfer.{
  TransferRequest, SubmitTransferRequest, CheckoutSession, WalletRiskProfile,
}

pub data Result {ℓ} (A : Type ℓ) : Type ℓ where
  ok : A → Result A
  err : AppError → Result A

-- `chrono::Duration::seconds`.
abbrev pub seconds : ℕ → ℕ
seconds n = 1000000 * n

-- The answer of the Range API to a risk query: score, level and reasoning.
pub record RiskResponse : Type 0 where
  pub risk_score : ℤ
  pub risk_level : String
  pub reasoning : String

pub record Env : Type 0 where
  -- `Utc::now()` and `Uuid::new_v4()`
  pub clock : ℕ → ℕ
  pub new_uuid : ℕ → String
  -- the error with which a database statement fails, if it does; the text of such an error, of a
  -- violated primary key, and of a violated CHECK
  pub fault : ℕ → Option SqlxError
  pub sqlx_text : SqlxError → String
  pub duplicate_key_text : String
  pub check_violation_text : String
  -- the `ComplianceProvider` and `BlockchainClient` trait objects
  pub check_compliance : ℕ → SubmitTransferRequest → Result ComplianceStatus
  pub submit_transaction : ℕ → TransferRequest → Result (String × String)
  pub get_signature_status : ℕ → String → Result (Option TransactionStatus)
  pub is_blockhash_valid : ℕ → String → Result Bool
  pub chain_health : ℕ → Result (Unit {0})
  pub check_wallet_assets : ℕ → String → Result Bool
  pub check_address_risk : ℕ → String → Result RiskResponse
  -- the text of a list of (field, message) validation errors
  pub validation_errors_text : List (String × String) → String
  -- base58 and Ed25519: an error text, or the bytes; `none` for a valid key or signature
  pub bs58_decode : String → String ⊎ List ℕ
  pub verifying_key : List ℕ → Option String
  pub verify_strict : List ℕ → String → List ℕ → Option String
  -- whether a JSON text is an object
  pub json_is_object : String → Bool

pub record World : Type 0 where
  pub transfers : List TransferRequest
  pub sessions : List CheckoutSession
  pub profiles : List WalletRiskProfile
  -- the `BlocklistManager`'s cache, if the service has one, and its table
  pub blocklist : Option (List (String × String))
  pub blocklist_rows : List (String × String)
  -- the number of effects so far
  pub tick : ℕ
  -- the requests handed to `submit_transaction`, newest first
  pub submissions : List TransferRequest

abbrev pub Action {ℓ} : Type ℓ → Type ℓ
Action A = World → Result A × World

module _ {ℓ} {A : Type ℓ} where
  unfoldable pub pure : A → Action A
  pure a w = (ok a, w)

  unfoldable pub raise : AppError → Action A
  raise e w = (err e, w)

  unfoldable pub lift : Result A → Action A
  lift r w = (r, w)

  unfoldable pub gets : (World → A) → Action A
  gets f w = (ok (f w), w)

  -- An effect that reads an answer of the environment.
  unfoldable pub ask : (ℕ → A) → Action A
  ask f w = (ok (f w.tick), record w { tick = suc w.tick })

  -- The same for an answer that may be an error, which `?` passes on.
  unfoldable pub ask_result : (ℕ → Result A) → Action A
  ask_result f w = (f w.tick, record w { tick = suc w.tick })

  -- `.ok_or_else(…)?` on an option.
  unfoldable pub ok_or : AppError → Option A → Action A
  ok_or e none w = (err e, w)
  ok_or e (some a) w = (ok a, w)

-- A `match` on a result instead of `?`.
unfoldable pub attempt {ℓ} : {A : Type ℓ} → Action A → Action (Result A)
attempt m w = let (r, w') = m w in (ok r, w')

module _ {ℓ κ} {A : Type ℓ} {B : Type κ} where
  unfoldable pub continue : Result A → (A → Action B) → Action B
  continue (ok a) f w = f a w
  continue (err e) f w = (err e, w)

  infixl 5 ◌>>=◌
  unfoldable pub ◌>>=◌ : Action A → (A → Action B) → Action B
  unfolding pure raise lift gets ask ask_result ok_or attempt continue
  ◌>>=◌ m f w = let (r, w') = m w in continue r f w'

infixl 5 ◌>>◌
abbrev pub ◌>>◌ {ℓ} : {B : Type ℓ} → Action (Unit {0}) → Action B → Action B
m >> n = m >>= λ _. n

-- Errors of the service: a missing row, and an invalid field.
abbrev pub not_found : String → AppError
not_found id = AppError.database (DatabaseError.not_found id)

-- A step that returns hands its result and its world to the rest; one that fails ends the chain.
pub bind-ok {ℓ κ} :
    {A : Type ℓ} {B : Type κ} (m : Action A) (f : A → Action B) {w v : World} {a : A}
    → m w ≡ (ok a, v)
    → (m >>= f) w ≡ f a v
unfolding ◌>>=◌
bind-ok m f {w} {v} {a} e = ap (λ p. continue p.0 f p.1) e

pub bind-err {ℓ κ} :
    {A : Type ℓ} {B : Type κ} (m : Action A) (f : A → Action B) {w v : World} {e : AppError}
    → m w ≡ (err e, v)
    → (m >>= f) w ≡ (err e, v)
unfolding ◌>>=◌
bind-err m f {w} {v} {e} h = ap (λ p. continue p.0 f p.1) h

-- A last `Ok(…)` leaves the world as it is.
pub world_then_pure {ℓ} :
    {A : Type ℓ} (m : Action (Unit {0})) (a : A) (w : World) → ((m >> pure a) w).1 ≡ (m w).1
unfolding ◌>>=◌
world_then_pure m a w = by_result (m w).0
  where
    by_result : (r : Result (Unit {0})) → (continue r (λ _. pure a) (m w).1).1 ≡ (m w).1
    by_result (ok tt) = refl
    by_result (err e) = refl
