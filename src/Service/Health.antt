-- ===== src/Service/Health.antt =====
-- `AppService::health_check` and `HealthResponse::new`.
use solana_compliance_relaye.Domain.Status.{HealthStatus}
use solana_compliance_relaye.Runtime.{Env, Result, ok, err, Action, pure, ask, attempt, ◌>>=◌}
use solana_compliance_relaye.Database.Sessions.{database_health}

pub record HealthResponse : Type 0 where
  pub status : HealthStatus
  pub database : HealthStatus
  pub blockchain : HealthStatus

unfoldable pub overall : HealthStatus → HealthStatus → HealthStatus
overall HealthStatus.healthy HealthStatus.healthy = HealthStatus.healthy
overall HealthStatus.unhealthy _ = HealthStatus.unhealthy
overall _ HealthStatus.unhealthy = HealthStatus.unhealthy
overall _ _ = HealthStatus.degraded

abbrev pub health_of : Result (Unit {0}) → HealthStatus
health_of (ok _) = HealthStatus.healthy
health_of (err _) = HealthStatus.unhealthy

module _ (env : Env) where
  unfoldable pub health_check : Action HealthResponse
  unfolding ◌>>=◌ overall
  health_check = do
    db ← attempt (database_health env)
    chain ← ask env.chain_health
    pure (record {
      status = overall (health_of db) (health_of chain);
      database = health_of db;
      blockchain = health_of chain;
    })
