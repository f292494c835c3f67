-- ===== src/Database/Statement.antt =====
-- One SQL statement: it fails as the environment says and then changes nothing, or it runs at one
-- moment of the clock.
use solana_compliance_relaye.Prelude.{ℕ, suc, Option, none, some}
use solana_compliance_relaye.Domain.Error.{AppError, DatabaseError, SqlxError}
use solana_compliance_relaye.Runtime.Keeps.{Keeps, IsQuiet}
use solana_compliance_relaye.Runtime.{Env, World, Result, err, Action}

module _ (env : Env) where
  -- `map_err(|e| AppError::Database(DatabaseError::Query(e.to_string())))`
  abbrev pub query_error : SqlxError → AppError
  query_error e = AppError.database (DatabaseError.query (env.sqlx_text e))

  -- The body gets the time and the number of the statement, and the world.
  unfoldable pub run_statement {ℓ} :
      {A : Type ℓ}
      → (SqlxError → AppError)
      → (ℕ → World → Result A × World)
      → Option SqlxError
      → Action A
  run_statement wrap body (some e) w = (err (wrap e), record w { tick = suc w.tick })
  run_statement wrap body none w =
      let (r, w') = body (env.clock w.tick) w in (r, record w' { tick = suc w.tick })

  unfoldable pub statement {ℓ} :
      {A : Type ℓ} → (SqlxError → AppError) → (ℕ → World → Result A × World) → Action A
  unfolding run_statement
  statement wrap body w = run_statement wrap body (env.fault w.tick) w

module _ {ℓ} {A : Type ℓ} {P : World → Type 0} (env : Env) where
  run_statement-Keeps :
      (wrap : SqlxError → AppError) (body : ℕ → World → Result A × World)
      → IsQuiet P
      → ((now : ℕ) (w : World) → P w → P (body now w).1)
      → (fault : Option SqlxError) (w : World) → P w
      → P (run_statement env wrap body fault w).1
  unfolding run_statement
  run_statement-Keeps wrap body quiet keep (some e) w h = quiet w (suc w.tick) h
  run_statement-Keeps wrap body quiet keep none w h =
      quiet (body (env.clock w.tick) w).1 (suc w.tick) (keep (env.clock w.tick) w h)

  -- A statement keeps what its body keeps.
  pub Keeps-statement :
      (wrap : SqlxError → AppError) (body : ℕ → World → Result A × World)
      → IsQuiet P
      → ((now : ℕ) (w : World) → P w → P (body now w).1)
      → Keeps P (statement env wrap body)
  unfolding statement
  Keeps-statement wrap body quiet keep = record {
    at = λ w h. run_statement-Keeps wrap body quiet keep (env.fault w.tick) w h;
  }
