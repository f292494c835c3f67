-- ===== src/Risk.antt =====
-- The pre-flight wallet check, src/app/risk_service.rs: blocklist, then cache, then the providers.
pub mod Screening
pub mod Range
pub mod FailClosed
use solana_compliance_relaye.Prelude.{
  ℤ, pos, int_leb, int_text, ℕ, ◌≡◌, Bool, true, false, not, ◌&&◌, Option, none, some, String,
  ◌+++◌, decimal, leb, List, unwrap_or, if◌then◌else◌,
}
use solana_compliance_relaye.Domain.Transfer.{WalletRiskProfile}
use solana_compliance_relaye.Runtime.{
  Env, World, Result, ok, err, RiskResponse, Action, pure, gets, ask, attempt, ◌>>=◌, ◌>>◌,
}
use solana_compliance_relaye.Database.Sessions.{get_risk_profile, upsert_risk_profile}
use solana_compliance_relaye.Blocklist.{check_address, add_address}
use solana_compliance_relaye.Service.Submit.{is_unlisted}

abbrev pub default_cache_ttl_secs : ℕ
default_cache_ttl_secs = 3600

-- `DEFAULT_RISK_THRESHOLD` of src/infra/compliance/range.rs.
abbrev pub default_risk_threshold : ℤ
default_risk_threshold = pos 6

pub record Analysis : Type 0 where
  pub address : String
  pub risk_score : ℤ
  pub risk_level : String
  pub reasoning : String
  pub has_sanctioned_assets : Bool
  pub helius_assets_checked : Bool
  pub from_cache : Bool
  pub checked_at : ℕ

pub data RiskCheckResult : Type 0 where
  -- the address and the reason
  blocked : String → String → RiskCheckResult
  analyzed : Analysis → RiskCheckResult

-- What a profile says, with the defaults for what is missing.
unfoldable pub analysis : WalletRiskProfile → Bool → ℕ → Analysis
analysis p from_cache checked_at = record {
  address = p.address;
  risk_score = unwrap_or p.risk_score (pos 0);
  risk_level = unwrap_or p.risk_level "Unknown";
  reasoning = unwrap_or p.reasoning "";
  has_sanctioned_assets = p.has_sanctioned_assets;
  helius_assets_checked = p.helius_assets_checked;
  from_cache = from_cache;
  checked_at = checked_at;
}

abbrev pub score_in : Result RiskResponse → Option ℤ
score_in (ok a) = some a.risk_score
score_in (err _) = none

abbrev level_in : Result RiskResponse → Option String
level_in (ok a) = some a.risk_level
level_in (err _) = none

abbrev reasoning_in : Result RiskResponse → Option String
reasoning_in (ok a) = some a.reasoning
reasoning_in (err _) = none

-- A failed asset check counts as compliant and not checked.
abbrev sanctioned_in : Result Bool → Bool
sanctioned_in (ok compliant) = not compliant
sanctioned_in (err _) = false

abbrev checked_in : Result Bool → Bool
checked_in (ok _) = true
checked_in (err _) = false

unfoldable pub profile_of : String → Result RiskResponse → Result Bool → ℕ → WalletRiskProfile
profile_of address range assets now = record {
  address = address;
  risk_score = score_in range;
  risk_level = level_in range;
  reasoning = reasoning_in range;
  has_sanctioned_assets = sanctioned_in assets;
  helius_assets_checked = checked_in assets;
  created_at = now;
  updated_at = now;
}

module _ (env : Env) (cache_ttl_secs : ℕ) where
  unfoldable pub list_address : Bool → String → String → Action (Unit {0})
  unfolding ◌>>=◌
  list_address false address reason = pure tt
  list_address true address reason = do done ← attempt (add_address env address reason); pure tt

  unfoldable pub auto_block_risky : WalletRiskProfile → Option ℤ → Action (Unit {0})
  unfolding ◌>>=◌ list_address int_text
  auto_block_risky p none = pure tt
  auto_block_risky p (some score) = do
    unlisted ← gets (λ w. is_unlisted w.blocklist p.address)
    list_address (int_leb default_risk_threshold score && unlisted) p.address (
        "Auto-blocked: Range Protocol "
        +++ unwrap_or p.risk_level "High Risk"
        +++ " (score: "
        +++ int_text score
        +++ ")")

  unfoldable pub query_providers : String → Action RiskCheckResult
  unfolding ◌>>=◌
  query_providers address = do
    range ← ask (λ n. env.check_address_risk n address)
    assets ← ask (λ n. env.check_wallet_assets n address)
    now ← ask env.clock
    stored ← attempt (upsert_risk_profile env (profile_of address range assets now))
    auto_block_risky (profile_of address range assets now)
        (profile_of address range assets now).risk_score
    pure (RiskCheckResult.analyzed (analysis (profile_of address range assets now) false now))

  unfoldable pub from_cache_or_query : String → Option WalletRiskProfile → Action RiskCheckResult
  unfolding pure
  from_cache_or_query address (some p) =
      pure (RiskCheckResult.analyzed (analysis p true p.updated_at))
  from_cache_or_query address none = query_providers address

  unfoldable pub unless_listed : String → Option String → Action RiskCheckResult
  unfolding ◌>>=◌ from_cache_or_query
  unless_listed address (some reason) = pure (RiskCheckResult.blocked address reason)
  unless_listed address none = do
    cached ← get_risk_profile env address cache_ttl_secs
    from_cache_or_query address cached

  unfoldable pub check_wallet_risk : String → Action RiskCheckResult
  unfolding ◌>>=◌ unless_listed
  check_wallet_risk address = do hit ← gets (check_address address); unless_listed address hit
