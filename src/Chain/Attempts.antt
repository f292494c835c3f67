-- ===== src/Chain/Attempts.antt =====
-- What the retry loop of the JSON-RPC calls in src/infra/blockchain/solana.rs comes to.
use solana_compliance_relaye.Prelude.{
  ℕ, zero, suc, ◌+◌, ◌<◌, ◌≤◌, ◌≡◌, refl, ◌∙◌, ap, ◌⊎◌, inl, inr, true, Option, none, some, String,
  arith, Bool-cases, ◌==◌,
}
use solana_compliance_relaye.Domain.Error.{AppError}
use solana_compliance_relaye.Runtime.{Result, ok, err}
use solana_compliance_relaye.Runtime.Fails.{IsErr}
use solana_compliance_relaye.Chain.Rpc.{rpc_attempts, rpc_call, deserialized}

Result-cases : {A : Type 0} (r : Result A) → ((a : A) × (r ≡ ok a)) ⊎ ((e : AppError) × (r ≡ err e))
Result-cases (ok a) = inl (a, refl)
Result-cases (err e) = inr (e, refl)

IsErr-ok : {A : Type 0} (r : Result A) (a : A) → r ≡ ok a → ¬ IsErr r
IsErr-ok (ok b) a e h = h
IsErr-ok (err x) a e h = ground arith

module _ {J R : Type 0} (provider : ℕ → Result J) (from_value : J → String ⊎ R) where
  -- The attempts from number `n` on, up to the first that is answered.
  attempts_answered :
      (left n m : ℕ) (last : Option AppError) (j : J)
      → ((i : ℕ) → n ≤ i → i < m → IsErr (provider i))
      → provider m ≡ ok j
      → n ≤ m
      → m < n + left
      → rpc_attempts provider from_value left n last ≡ (deserialized (from_value j), suc m)
  unfolding rpc_attempts
  attempts_answered zero n m last j fails e l h = absurd (omega arith)
  attempts_answered (suc left) n m last j fails e l h = elim (Bool-cases (n == m)) [
    | inl q ↦
        rw (rpc_attempts, ap provider (same q) ∙ e)
          (ap (λ (k : ℕ). (deserialized (from_value j), suc k)) (same q))
    | inr q ↦ elim (Result-cases (provider n)) [
      | inl (a, x) ↦ absurd (IsErr-ok (provider n) a x (fails n (omega arith) (ground arith)))
      | inr (x, y) ↦
          rw (rpc_attempts, y)
            (attempts_answered left (suc n) m (some x) j (λ i a b. fails i (omega arith) b) e
              (ground arith) (omega arith))
    ]
  ]
    where
      same : (n == m) ≡ true → n ≡ m
      same q = ground arith

  -- All the attempts fail.
  attempts_fail :
      (left n : ℕ) (last : Option AppError) (x : AppError)
      → ((i : ℕ) → n ≤ i → i < n + suc left → IsErr (provider i))
      → provider (n + left) ≡ err x
      → rpc_attempts provider from_value (suc left) n last ≡ (err x, n + suc left)
  unfolding rpc_attempts
  attempts_fail zero n last x fails e =
      rw (rpc_attempts, at_n) (ap (λ (k : ℕ). (err x, k)) (omega arith))
    where
      no_more : n ≡ n + 0
      no_more = omega arith

      at_n : provider n ≡ err x
      at_n = ap provider no_more ∙ e
  attempts_fail (suc left) n last x fails e = elim (Result-cases (provider n)) [
    | inl (a, y) ↦ absurd (IsErr-ok (provider n) a y (fails n (omega arith) (omega arith)))
    | inr (z, y) ↦
        rw (rpc_attempts, y)
          (attempts_fail left (suc n) (some z) x (λ i a b. fails i (omega arith) (omega arith))
              (ap provider shifted ∙ e)
            ∙ ap (λ (k : ℕ). (err x, k)) (omega arith))
  ]
    where
      shifted : suc n + left ≡ n + suc left
      shifted = omega arith

  -- A call whose parameters serialize sends requests until one is answered, at most one more than the
  -- maximum of retries: if attempt `m` is the first that is answered, it gives that answer, parsed,
  -- after `m + 1` requests.
  pub rpc_call-first_answer :
      (max_retries m : ℕ) (j : J)
      → ((i : ℕ) → i < m → IsErr (provider i))
      → provider m ≡ ok j
      → m ≤ max_retries
      → rpc_call provider from_value max_retries none ≡ (deserialized (from_value j), suc m)
  unfolding rpc_call
  rpc_call-first_answer max_retries m j fails e h =
      attempts_answered (suc max_retries) 0 m none j (λ i a b. fails i b) e (omega arith)
        (omega arith)

  -- If no attempt is answered, it gives the error of the last one, after all of them.
  pub rpc_call-last_error :
      (max_retries : ℕ) (x : AppError)
      → ((i : ℕ) → i ≤ max_retries → IsErr (provider i))
      → provider max_retries ≡ err x
      → rpc_call provider from_value max_retries none ≡ (err x, suc max_retries)
  unfolding rpc_call
  rpc_call-last_error max_retries x fails e =
      attempts_fail max_retries 0 none x (λ i a b. fails i (omega arith))
        (ap provider from_zero ∙ e)
      ∙ ap (λ (k : ℕ). (err x, k)) (omega arith)
    where
      from_zero : 0 + max_retries ≡ max_retries
      from_zero = omega arith
