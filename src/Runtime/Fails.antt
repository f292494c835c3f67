-- ===== src/Runtime/Fails.antt =====
-- Actions that surely fail: `Fails P m` says that from a world with `P` the action `m` ends in an
-- error, and leaves `P` true.
use solana_compliance_relaye.Domain.Error.{AppError}
use solana_compliance_relaye.Runtime.{Result, ok, err, World, Action, raise, continue, ◌>>=◌}
use solana_compliance_relaye.Runtime.Keeps.{Keeps}

abbrev pub IsErr {ℓ} : {A : Type ℓ} → Result A → Type 0
IsErr (ok _) = ⊥
IsErr (err _) = Unit

pub record Fails {ℓ} {A : Type ℓ} (P : World → Type 0) (m : Action A) : Type ℓ where
  pub at : (w : World) → P w → IsErr (m w).0 × P (m w).1

module _ {ℓ} {A : Type ℓ} {P : World → Type 0} where
  pub Fails-raise : (e : AppError) → Fails P (raise {A = A} e)
  unfolding raise
  Fails-raise e = record { at = λ w h. (tt, h) }

module _ {ℓ κ} {A : Type ℓ} {B : Type κ} where
  continue_fails :
      (P : World → Type 0) (r : Result A) (f : A → Action B) (w : World)
      → IsErr r × P w
      → IsErr (continue r f w).0 × P (continue r f w).1
  unfolding continue
  continue_fails P (ok a) f w h = absurd h.0
  continue_fails P (err e) f w h = h

module _ {ℓ κ} {A : Type ℓ} {B : Type κ} {P : World → Type 0} where
  continue_goes_on :
      (r : Result A) {f : A → Action B}
      → ((a : A) → Fails P (f a))
      → (w : World) → P w
      → IsErr (continue r f w).0 × P (continue r f w).1
  unfolding continue
  continue_goes_on (ok a) ff w h = (ff a).at w h
  continue_goes_on (err e) ff w h = (tt, h)

  -- A chain fails at its first step,
  pub Fails-left : {m : Action A} (f : A → Action B) → Fails P m → Fails P (m >>= f)
  unfolding ◌>>=◌
  Fails-left {m} f fm = record {
    at = λ w h. let (r, w') = m w in continue_fails P r f w' (fm.at w h);
  }

  -- or at a later one.
  pub Fails-right :
      {m : Action A} {f : A → Action B} → Keeps P m → ((a : A) → Fails P (f a)) → Fails P (m >>= f)
  unfolding ◌>>=◌
  Fails-right {m} km ff = record {
    at = λ w h. let (r, w') = m w in continue_goes_on r ff w' (km.at w h);
  }
