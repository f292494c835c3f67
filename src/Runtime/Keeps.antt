-- ===== src/Runtime/Keeps.antt =====
-- Invariants of actions: `Keeps P m` says that `m` leaves `P` true, whether it returns or fails.
-- One rule for each way to build an action; the predicate must not look at the count of effects.
use solana_compliance_relaye.Prelude.{ℕ, suc, Bool, true, false, Option, none, some, if◌then◌else◌}
use solana_compliance_relaye.Domain.Error.{AppError}
use solana_compliance_relaye.Runtime.{
  Result, ok, err, World, Action, pure, raise, lift, gets, ask, ask_result, ok_or, attempt, ◌>>=◌,
  continue,
}

pub record Keeps {ℓ} {A : Type ℓ} (P : World → Type 0) (m : Action A) : Type ℓ where
  pub at : (w : World) → P w → P (m w).1

-- `P` holds at any count of effects, if it holds at one.
abbrev pub IsQuiet : (World → Type 0) → Type 0
IsQuiet P = (w : World) (n : ℕ) → P w → P (record w { tick = n })

module _ {ℓ} {A : Type ℓ} {P : World → Type 0} where
  pub Keeps-pure : (a : A) → Keeps P (pure a)
  unfolding pure
  Keeps-pure a = record { at = λ w h. h }

  pub Keeps-raise : (e : AppError) → Keeps P (raise {A = A} e)
  unfolding raise
  Keeps-raise e = record { at = λ w h. h }

  pub Keeps-lift : (r : Result A) → Keeps P (lift r)
  unfolding lift
  Keeps-lift r = record { at = λ w h. h }

  pub Keeps-gets : (f : World → A) → Keeps P (gets f)
  unfolding gets
  Keeps-gets f = record { at = λ w h. h }

  pub Keeps-ask : IsQuiet P → (f : ℕ → A) → Keeps P (ask f)
  unfolding ask
  Keeps-ask quiet f = record { at = λ w h. quiet w (suc w.tick) h }

  pub Keeps-ask_result : IsQuiet P → (f : ℕ → Result A) → Keeps P (ask_result f)
  unfolding ask_result
  Keeps-ask_result quiet f = record { at = λ w h. quiet w (suc w.tick) h }

  pub Keeps-ok_or : (e : AppError) (o : Option A) → Keeps P (ok_or e o)
  unfolding ok_or
  Keeps-ok_or e none = record { at = λ w h. h }
  Keeps-ok_or e (some a) = record { at = λ w h. h }

  pub Keeps-attempt : {m : Action A} → Keeps P m → Keeps P (attempt m)
  unfolding attempt
  Keeps-attempt k = record { at = λ w h. k.at w h }

  pub Keeps-if : (b : Bool) {m n : Action A} → Keeps P m → Keeps P n → Keeps P (if b then m else n)
  Keeps-if true km kn = km
  Keeps-if false km kn = kn

module _ {ℓ κ} {A : Type ℓ} {B : Type κ} {P : World → Type 0} where
  Keeps-continue :
      (r : Result A) {f : A → Action B}
      → ((a : A) → Keeps P (f a))
      → (w : World) → P w
      → P (continue r f w).1
  unfolding continue
  Keeps-continue (ok a) kf w h = (kf a).at w h
  Keeps-continue (err e) kf w h = h

  pub Keeps-bind :
      {m : Action A} {f : A → Action B} → Keeps P m → ((a : A) → Keeps P (f a)) → Keeps P (m >>= f)
  unfolding ◌>>=◌
  Keeps-bind {m} km kf = record {
    at = λ w h. let (r, w') = m w in Keeps-continue r kf w' (km.at w h);
  }

pub ruleset keeps_rules = (
  Keeps-pure, Keeps-raise, Keeps-lift, Keeps-gets, Keeps-ask, Keeps-ask_result, Keeps-ok_or,
  Keeps-attempt, Keeps-if, Keeps-bind,
)
