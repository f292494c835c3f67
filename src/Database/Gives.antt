-- ===== src/Database/Gives.antt =====
-- Actions that establish something when they return: `Gives P m Q` says that from a world with `P`
-- the action `m` ends in one with `Q a` if it returns `a`, and in one with `P` if it fails.
use solana_compliance_relaye.Prelude.{Option, none, some, suc, ℕ}
use solana_compliance_relaye.Domain.Error.{AppError, SqlxError}
use solana_compliance_relaye.Runtime.{Env, Result, ok, err, World, Action, ◌>>=◌, continue}
use solana_compliance_relaye.Runtime.Keeps.{Keeps, IsQuiet}
use solana_compliance_relaye.Database.Statement.{statement, run_statement}

-- What holds after an outcome.
abbrev pub Outcome {ℓ} :
    {A : Type ℓ} → (World → Type 0) → (A → World → Type 0) → Result A → World → Type 0
Outcome P Q (ok a) w = Q a w
Outcome P Q (err e) w = P w

pub record Gives {ℓ} {A : Type ℓ} (P : World → Type 0) (m : Action A) (Q : A → World → Type 0)
    : Type ℓ where
  pub at : (w : World) → P w → Outcome P Q (m w).0 (m w).1

module _ {ℓ κ} {A : Type ℓ} {B : Type κ} {Q : A → World → Type 0} where
  continue-Gives :
      (P : World → Type 0) (r : Result A) (f : A → Action B)
      → ((a : A) (v : World) → Q a v → P (f a v).1)
      → (w : World) → Outcome P Q r w
      → P (continue r f w).1
  unfolding continue
  continue-Gives P (ok a) f kf w h = kf a w h
  continue-Gives P (err e) f kf w h = h

module _ {ℓ κ} {A : Type ℓ} {B : Type κ} {P : World → Type 0} {Q : A → World → Type 0} where
  -- The rest of a chain may rely on what its first step gives.
  pub Gives-to :
      {m : Action A} (f : A → Action B)
      → Gives P m Q
      → ((a : A) (v : World) → Q a v → P (f a v).1)
      → Keeps P (m >>= f)
  unfolding ◌>>=◌
  Gives-to {m} f g kf = record {
    at = λ w h. let (r, w') = m w in continue-Gives P r f kf w' (g.at w h);
  }

  -- It may keep that, if that is more than was there before.
  pub Gives-then :
      {m : Action A} {f : A → Action B}
      → Gives P m Q
      → ((a : A) → Keeps (Q a) (f a))
      → ((a : A) (v : World) → Q a v → P v)
      → Keeps P (m >>= f)
  Gives-then {f = f} g kf back = Gives-to f g (λ a v h. back a _ ((kf a).at v h))

module _ {ℓ} {A : Type ℓ} {P : World → Type 0} {Q : A → World → Type 0} (env : Env) where
  Outcome-quiet :
      IsQuiet P
      → ((a : A) → IsQuiet (Q a))
      → (r : Result A) (w : World) (n : ℕ) → Outcome P Q r w
      → Outcome P Q r (record w { tick = n })
  Outcome-quiet p q (ok a) w n h = q a w n h
  Outcome-quiet p q (err e) w n h = p w n h

  run_statement-Gives :
      (wrap : SqlxError → AppError) (body : ℕ → World → Result A × World)
      → IsQuiet P
      → ((a : A) → IsQuiet (Q a))
      → ((now : ℕ) (w : World) → P w → Outcome P Q (body now w).0 (body now w).1)
      → (fault : Option SqlxError) (w : World) → P w
      → Outcome P Q (run_statement env wrap body fault w).0 (run_statement env wrap body fault w).1
  unfolding run_statement
  run_statement-Gives wrap body p q give (some e) w h = p w (suc w.tick) h
  run_statement-Gives wrap body p q give none w h =
      let (r, w') = body (env.clock w.tick) w in
      Outcome-quiet p q r w' (suc w.tick) (give (env.clock w.tick) w h)

  -- A statement gives what its body gives.
  pub Gives-statement :
      (wrap : SqlxError → AppError) (body : ℕ → World → Result A × World)
      → IsQuiet P
      → ((a : A) → IsQuiet (Q a))
      → ((now : ℕ) (w : World) → P w → Outcome P Q (body now w).0 (body now w).1)
      → Gives P (statement env wrap body) Q
  unfolding statement
  Gives-statement wrap body p q give = record {
    at = λ w h. run_statement-Gives wrap body p q give (env.fault w.tick) w h;
  }
