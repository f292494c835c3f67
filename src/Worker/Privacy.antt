-- ===== src/Worker/Privacy.antt =====
-- `PrivacyHealthCheckService` of src/infra/privacy/health_check.rs and the worker's
-- `check_privacy_health`, which no loop calls. The token API's answer and the random, floating-point
-- delay are parameters. `none` stands for a panic.
use solana_compliance_relaye.Prelude.{
  ℕ, ◌≡◌, ◌≤◌, refl, ◌⊎◌, inl, inr, Bool, true, false, not, ◌||◌, Option, none, some, String,
  if◌then◌else◌, leb, ltb, unwrap_or, arith, Bool-cases,
}
use solana_compliance_relaye.Domain.Transfer.{TransferRequest, TransferType}
use solana_compliance_relaye.Runtime.{Result, ok, err}
use solana_compliance_relaye.Worker.{WorkerConfig}

pub record PrivacyHealthCheckConfig : Type 0 where
  pub min_tx_threshold : ℕ
  pub lookback_minutes : ℕ
  pub max_delay_secs : ℕ
  pub min_delay_secs : ℕ
  pub enabled : Bool

pub record AnonymitySetHealth : Type 0 where
  pub token_mint : String
  pub recent_tx_count : ℕ
  pub is_healthy : Bool
  pub recommended_delay_secs : Option ℕ

-- The service: its configuration, the token API's count of recent transactions of a mint, if there
-- is a client, and the delay before it is clamped.
pub record PrivacyHealthCheckService : Type 0 where
  pub config : PrivacyHealthCheckConfig
  pub get_recent_activity : Option (String → ℕ → Result ℕ)
  pub jittered_delay : ℕ → ℕ

unfoldable pub healthy : String → ℕ → AnonymitySetHealth
healthy token_mint n = record {
  token_mint = token_mint;
  recent_tx_count = n;
  is_healthy = true;
  recommended_delay_secs = none;
}

unfoldable pub unhealthy : String → ℕ → ℕ → AnonymitySetHealth
unhealthy token_mint n delay_secs = record {
  token_mint = token_mint;
  recent_tx_count = n;
  is_healthy = false;
  recommended_delay_secs = some delay_secs;
}

unfoldable pub skipped : String → AnonymitySetHealth
skipped token_mint = record {
  token_mint = token_mint;
  recent_tx_count = 0;
  is_healthy = true;
  recommended_delay_secs = none;
}

abbrev clamp : ℕ → ℕ → ℕ → ℕ
clamp low high n = if ltb n low then low else if ltb high n then high else n

-- The worker sends only confidential transfers to the check.
unfoldable pub is_confidential : TransferRequest → Bool
is_confidential r = elim r.transfer_details [
  | TransferType.public _ ↦ false
  | TransferType.confidential _ _ _ _ ↦ true
]

module _ (service : PrivacyHealthCheckService) where
  -- `clamp` panics on a lower limit above the upper one, and so does the subtraction before it.
  unfoldable pub calculate_delay : ℕ → Option ℕ
  calculate_delay recent_tx_count =
      if leb service.config.min_delay_secs service.config.max_delay_secs
      then some (
          clamp service.config.min_delay_secs service.config.max_delay_secs
            (service.jittered_delay recent_tx_count))
      else none

  unfoldable pub delayed : String → ℕ → Option ℕ → Option AnonymitySetHealth
  unfolding unhealthy
  delayed token_mint n none = none
  delayed token_mint n (some delay) = some (unhealthy token_mint n delay)

  unfoldable pub on_activity : String → Result ℕ → Option AnonymitySetHealth
  unfolding healthy skipped delayed calculate_delay
  on_activity token_mint (err e) = some (skipped token_mint)
  on_activity token_mint (ok n) =
      if leb service.config.min_tx_threshold n
      then some (healthy token_mint n)
      else delayed token_mint n (calculate_delay n)

  unfoldable pub query : String → Option (String → ℕ → Result ℕ) → Option AnonymitySetHealth
  unfolding on_activity skipped
  query token_mint none = some (skipped token_mint)
  query token_mint (some client) =
      on_activity token_mint (client token_mint service.config.lookback_minutes)

  unfoldable pub check_health : String → Option AnonymitySetHealth
  unfolding query skipped
  check_health token_mint =
      if service.config.enabled
      then query token_mint service.get_recent_activity
      else some (skipped token_mint)

unfoldable pub delay_of : Option AnonymitySetHealth → Option ℕ
delay_of none = none
delay_of (some health) =
    some (if health.is_healthy then 0 else unwrap_or health.recommended_delay_secs 0)

unfoldable pub delay_for_mint : PrivacyHealthCheckService → Option String → Option ℕ
unfolding delay_of check_health
delay_for_mint service none = some 0
delay_for_mint service (some mint) = delay_of (check_health service mint)

unfoldable pub delay_from : Option PrivacyHealthCheckService → Option String → Option ℕ
unfolding delay_for_mint
delay_from none token_mint = some 0
delay_from (some service) token_mint = delay_for_mint service token_mint

unfoldable pub check_privacy_health :
    WorkerConfig → Option PrivacyHealthCheckService → TransferRequest → Option ℕ
unfolding is_confidential delay_from
check_privacy_health config service request =
    if not (is_confidential request) || not config.enable_privacy_checks
    then some 0
    else delay_from service request.token_mint

module _ (service : PrivacyHealthCheckService)
    (ordered : service.config.min_delay_secs ≤ service.config.max_delay_secs) where
  -- No delay, or one within the limits.
  abbrev pub IsWithinLimits : ℕ → Type 0
  IsWithinLimits d =
      (d ≡ 0) ⊎ ((service.config.min_delay_secs ≤ d) × (d ≤ service.config.max_delay_secs))

  abbrev pub IsDelay : Option ℕ → Type 0
  IsDelay o = (d : ℕ) × (o ≡ some d) × IsWithinLimits d

  abbrev no_delay : IsDelay (some 0)
  no_delay = (0, refl, inl refl)

  clamp_limits :
      (low high n : ℕ) → low ≤ high → (low ≤ clamp low high n) × (clamp low high n ≤ high)
  clamp_limits low high n h = (ground arith, ground arith)

  low_activity-IsDelay :
      (mint : String) (n : ℕ)
      → IsDelay (delay_of (delayed service mint n (calculate_delay service n)))
  unfolding delay_of delayed calculate_delay unhealthy
  low_activity-IsDelay mint n =
      rw (leb_of service.config.min_delay_secs service.config.max_delay_secs ordered) (
        clamp service.config.min_delay_secs service.config.max_delay_secs
            (service.jittered_delay n),
        refl,
        inr (clamp_limits _ _ _ ordered),
      )
    where
      leb_of : (a b : ℕ) → a ≤ b → leb a b ≡ true
      leb_of a b h = ground arith

  on_activity-IsDelay :
      (mint : String) (r : Result ℕ) → IsDelay (delay_of (on_activity service mint r))
  unfolding on_activity skipped delay_of
  on_activity-IsDelay mint (err e) = no_delay
  on_activity-IsDelay mint (ok n) = by_activity (leb service.config.min_tx_threshold n)
    where
      by_activity :
          (b : Bool)
          → IsDelay (
              delay_of (
                if b
                then some (healthy mint n)
                else delayed service mint n (calculate_delay service n)))
      by_activity true = no_delay
      by_activity false = low_activity-IsDelay mint n

  check_health-IsDelay : (mint : String) → IsDelay (delay_of (check_health service mint))
  unfolding check_health query skipped delay_of
  check_health-IsDelay mint = by_service service.config.enabled service.get_recent_activity
    where
      by_service :
          (b : Bool) (o : Option (String → ℕ → Result ℕ))
          → IsDelay (delay_of (if b then query service mint o else some (skipped mint)))
      by_service false o = no_delay
      by_service true none = no_delay
      by_service true (some client) =
          on_activity-IsDelay mint (client mint service.config.lookback_minutes)

  delay_for_mint-IsDelay : (o : Option String) → IsDelay (delay_for_mint service o)
  unfolding delay_for_mint
  delay_for_mint-IsDelay none = no_delay
  delay_for_mint-IsDelay (some mint) = check_health-IsDelay mint

  -- With limits in order, whatever the token API answers and whatever the random numbers are, the
  -- worker's check of a transfer returns, without a panic, no delay or one within the limits, and no
  -- delay for a transfer that is not confidential.
  pub check_privacy_health-IsDelay :
      (config : WorkerConfig) (request : TransferRequest)
      → IsDelay (check_privacy_health config (some service) request)
        × ((is_confidential request ≡ true)
            ⊎ (check_privacy_health config (some service) request ≡ some 0))
  unfolding check_privacy_health delay_from
  check_privacy_health-IsDelay config request = (
    by_test (not (is_confidential request) || not config.enable_privacy_checks),
    elim (Bool-cases (is_confidential request)) [ inl e ↦ inl e | inr e ↦ inr (rw e refl) ],
  )
    where
      by_test :
          (b : Bool) → IsDelay (if b then some 0 else delay_from (some service) request.token_mint)
      by_test true = no_delay
      by_test false = delay_for_mint-IsDelay request.token_mint
