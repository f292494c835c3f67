-- ===== src/Service/Backoff.antt =====
-- The constants and the retry delay of src/app/service.rs.
use solana_compliance_relaye.Prelude.{
  ℕ, ◌+◌, ◌^◌, ◌*◌, min, Option, none, some, String, leb, if◌then◌else◌,
}
use solana_compliance_relaye.Domain.Status.{BlockchainStatus}
use solana_compliance_relaye.Domain.Error.{AppError, BlockchainError}
use solana_compliance_relaye.Runtime.{Env, Action, seconds, pure, ask, ◌>>=◌}

abbrev pub max_retry_attempts : ℕ
max_retry_attempts = 10

abbrev pub max_backoff_secs : ℕ
max_backoff_secs = 300

abbrev pub default_checkout_session_ttl_secs : ℕ
default_checkout_session_ttl_secs = 30 * 60

abbrev pub audit_risk_profile_max_age_secs : ℕ
audit_risk_profile_max_age_secs = 10 * 365 * 24 * 60 * 60

-- `2_i64.pow(retry_count.min(8) as u32).min(MAX_BACKOFF_SECS)`; the count is never negative.
unfoldable pub calculate_backoff : ℕ → ℕ
calculate_backoff retry_count = min (2 ^ min retry_count 8) max_backoff_secs

module _ (env : Env) where
  -- The status and the next attempt after the `retry_count`-th failure.
  unfoldable pub after_failure : ℕ → Action (BlockchainStatus × Option ℕ)
  unfolding calculate_backoff ◌>>=◌
  after_failure retry_count =
      if leb max_retry_attempts retry_count then pure (BlockchainStatus.failed, none) else do
        now ← ask env.clock
        pure (
          BlockchainStatus.pending_submission,
          some (now + seconds (calculate_backoff retry_count)),
        )

unfoldable pub extract_blockhash_from_error : AppError → Option String
extract_blockhash_from_error (AppError.blockchain (BlockchainError.timeout_with_blockhash _ h)) =
    some h
extract_blockhash_from_error
      (AppError.blockchain (BlockchainError.network_error_with_blockhash _ h)) =
    some h
extract_blockhash_from_error _ = none
