-- ===== src/Prelude/Lists.antt =====
-- Lists measured by native numbers, and a predicate on all members.
use Prim.Native.Nat.{ℕ, zero, suc, ◌≤◌}
use mathlib.Core.Path.{◌≡◌, refl, ap}
use mathlib.Core.Bool.{Bool, true, false}
use mathlib.Core.Logic.{◌⊎◌, inl, inr}
use mathlib.Core.List.{List, [], ◌∷◌, ◌++◌, map}
use native.Mathlib.Omega.{arith}
use solana_compliance_relaye.Prelude.Tests.{if◌then◌else◌}

module _ {ℓ} {A : Type ℓ} where
  abbrev pub length : List A → ℕ
  length [] = 0
  length (x ∷ xs) = suc (length xs)

  abbrev pub take : ℕ → List A → List A
  take zero xs = []
  take (suc n) [] = []
  take (suc n) (x ∷ xs) = x ∷ take n xs

  abbrev pub drop : ℕ → List A → List A
  drop zero xs = xs
  drop (suc n) [] = []
  drop (suc n) (x ∷ xs) = drop n xs

  -- The members that pass a Boolean test, in order.
  abbrev pub keep_if : (A → Bool) → List A → List A
  keep_if p [] = []
  keep_if p (x ∷ xs) = if p x then x ∷ keep_if p xs else keep_if p xs

  pub length-take-le : (n : ℕ) (xs : List A) → length (take n xs) ≤ n
  length-take-le zero xs = omega arith
  length-take-le (suc n) [] = omega arith
  length-take-le (suc n) (x ∷ xs) = omega (arith, length-take-le n xs)

module _ {ℓ κ} {A : Type ℓ} (P : A → Type κ) where
  abbrev pub All : List A → Type κ
  All [] = Unit
  All (x ∷ xs) = P x × All xs

module _ {ℓ κ} {A : Type ℓ} (P : A → Type κ) where
  pub All-append : (xs ys : List A) → All P xs → All P ys → All P (xs ++ ys)
  All-append [] ys hx hy = hy
  All-append (x ∷ xs) ys hx hy = (hx.0, All-append xs ys hx.1 hy)

  pub All-take : (n : ℕ) (xs : List A) → All P xs → All P (take n xs)
  All-take zero xs h = tt
  All-take (suc n) [] h = tt
  All-take (suc n) (x ∷ xs) h = (h.0, All-take n xs h.1)

  pub All-every : (xs : List A) → ((x : A) → P x) → All P xs
  All-every [] h = tt
  All-every (x ∷ xs) h = (h x, All-every xs h)

  pub All-keep_if :
      (p : A → Bool) (xs : List A) → All P xs → All (λ x. P x × (p x ≡ true)) (keep_if p xs)
  All-keep_if p [] h = tt
  All-keep_if p (x ∷ xs) h = keep (p x) refl (All-keep_if p xs h.1)
    where
      keep :
          (b : Bool)
          → p x ≡ b
          → All (λ y. P y × (p y ≡ true)) (keep_if p xs)
          → All (λ y. P y × (p y ≡ true)) (if b then x ∷ keep_if p xs else keep_if p xs)
      keep true e rest = ((h.0, e), rest)
      keep false e rest = rest

module _ {ℓ κ μ ν} {A : Type ℓ} {B : Type κ} (P : A → Type μ) (Q : B → Type ν) where
  pub All-map : (f : A → B) (xs : List A) → ((x : A) → P x → Q (f x)) → All P xs → All Q (map f xs)
  All-map f [] g h = tt
  All-map f (x ∷ xs) g h = (g x h.0, All-map f xs g h.1)

module _ {ℓ κ} {A : Type ℓ} (P Q : A → Type κ) where
  pub All-weaken : (xs : List A) → ((x : A) → P x → Q x) → All P xs → All Q xs
  All-weaken [] g h = tt
  All-weaken (x ∷ xs) g h = (g x h.0, All-weaken xs g h.1)

-- Membership, and where the functions on lists keep it.
module _ {A : Type 0} where
  abbrev pub IsIn : A → List A → Type 0
  IsIn a [] = ⊥
  IsIn a (x ∷ xs) = (a ≡ x) ⊎ IsIn a xs

  pub take_all : (n : ℕ) (xs : List A) → length xs ≤ n → take n xs ≡ xs
  take_all zero [] h = refl
  take_all zero (x ∷ xs) h = absurd (omega arith)
  take_all (suc n) [] h = refl
  take_all (suc n) (x ∷ xs) h = rw (take_all n xs (omega arith)) refl

  pub keep_if-IsIn :
      (p : A → Bool) (a : A) (xs : List A) → p a ≡ true → IsIn a xs → IsIn a (keep_if p xs)
  keep_if-IsIn p a [] e h = absurd h
  keep_if-IsIn p a (x ∷ xs) e h = by_test (p x) refl h (keep_if-IsIn p a xs e)
    where
      by_test :
          (b : Bool)
          → p x ≡ b
          → (a ≡ x) ⊎ IsIn a xs
          → (IsIn a xs → IsIn a (keep_if p xs))
          → IsIn a (if b then x ∷ keep_if p xs else keep_if p xs)
      by_test true c (inl k) rest = inl k
      by_test true c (inr k) rest = inr (rest k)
      by_test false c (inl k) rest = ground (arith, ap p k, c, e)
      by_test false c (inr k) rest = rest k

module _ {A B : Type 0} where
  pub map-IsIn : (f : A → B) (a : A) (xs : List A) → IsIn a xs → IsIn (f a) (map f xs)
  map-IsIn f a [] h = absurd h
  map-IsIn f a (x ∷ xs) (inl k) = inl (ap f k)
  map-IsIn f a (x ∷ xs) (inr k) = inr (map-IsIn f a xs k)
