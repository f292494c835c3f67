-- ===== src/Chain/Retries.antt =====
-- What the confirmation poll of src/infra/blockchain/solana.rs comes to.
use solana_compliance_relaye.Prelude.{
  ℕ, zero, suc, ◌+◌, ◌-◌, ◌*◌, ◌<◌, ◌≤◌, ◌≡◌, refl, ap, inl, inr, Bool, true, false, Option, none,
  some, String, arith, Bool-cases, ltb, ◌==◌,
}
use solana_compliance_relaye.Domain.Error.{AppError, BlockchainError}
use solana_compliance_relaye.Runtime.{Result, ok, err}
use solana_compliance_relaye.Chain.Jito.{chain_err}
use solana_compliance_relaye.Chain.Rpc.{after_poll, wait_loop, wait_for_confirmation}

-- A poll that saw the transaction neither confirmed nor failed.
abbrev pub IsUndecided : Result Bool → Type 0
IsUndecided (ok b) = b ≡ false
IsUndecided (err (AppError.blockchain (BlockchainError.transaction_failed m))) = ⊥
IsUndecided (err e) = Unit

-- What a finished wait may say, where `elapsed` counts the nanoseconds at each round: that the first
-- decisive poll saw the transaction confirmed, or saw it failed, within the time; or that the time is
-- over and no poll within it was decisive.
pub data IsWaitOutcome (elapsed : ℕ → ℕ) (poll : ℕ → Result Bool) (timeout_secs : ℕ)
    : Result Bool → Type 0 where
  confirmed :
      (n : ℕ)
      → elapsed n < 1000000000 * timeout_secs
      → ((i : ℕ) → i < n → IsUndecided (poll i))
      → poll n ≡ ok true
      → IsWaitOutcome elapsed poll timeout_secs (ok true)
  failed :
      (n : ℕ) (message : String)
      → elapsed n < 1000000000 * timeout_secs
      → ((i : ℕ) → i < n → IsUndecided (poll i))
      → poll n ≡ chain_err (BlockchainError.transaction_failed message)
      → IsWaitOutcome elapsed poll timeout_secs
          (chain_err (BlockchainError.transaction_failed message))
  timed_out :
      (message : String)
      → ((i : ℕ) → elapsed i < 1000000000 * timeout_secs → IsUndecided (poll i))
      → IsWaitOutcome elapsed poll timeout_secs (chain_err (BlockchainError.timeout message))

module _ (elapsed : ℕ → ℕ) (poll : ℕ → Result Bool) (signature : String) (timeout_secs : ℕ) where
  -- A loop that ends, and says what it may.
  Ends : Option (Result Bool) → Type 0
  Ends o =
      (outcome : Result Bool) × (o ≡ some outcome) × IsWaitOutcome elapsed poll timeout_secs outcome

  poll_outcome :
      (n : ℕ) (r : Result Bool) (rest : Option (Result Bool))
      → elapsed n < 1000000000 * timeout_secs
      → ((i : ℕ) → i < n → IsUndecided (poll i))
      → poll n ≡ r
      → (IsUndecided r → Ends rest)
      → Ends (elim (after_poll r) [ none ↦ rest | some outcome ↦ some outcome ])
  unfolding after_poll Ends
  poll_outcome n (ok true) rest t b e h = (_, refl, IsWaitOutcome.confirmed n t b e)
  poll_outcome n (ok false) rest t b e h = h refl
  poll_outcome n (err (AppError.blockchain (BlockchainError.transaction_failed m))) rest t b e h =
      (_, refl, IsWaitOutcome.failed n m t b e)
  poll_outcome n (err (AppError.blockchain _)) rest t b e h = h tt
  poll_outcome n (err _) rest t b e h = h tt

  -- Time does not run backwards.
  elapsed_le :
      ((i : ℕ) → elapsed i + 500000000 ≤ elapsed (suc i)) → (n d : ℕ) → elapsed n ≤ elapsed (n + d)
  elapsed_le sleeps n zero = rw (plus_zero n) (omega arith)
    where
      plus_zero : (n : ℕ) → n + 0 ≡ n
      plus_zero n = omega arith
  elapsed_le sleeps n (suc d) =
      rw (plus_suc n d) (omega (arith, elapsed_le sleeps n d, sleeps (n + d)))
    where
      plus_suc : (n d : ℕ) → n + suc d ≡ suc (n + d)
      plus_suc n d = omega arith

  -- The rounds within the time are those before a round at which it is over.
  over :
      ((i : ℕ) → elapsed i + 500000000 ≤ elapsed (suc i))
      → (n : ℕ) → 1000000000 * timeout_secs ≤ elapsed n
      → ((i : ℕ) → i < n → IsUndecided (poll i))
      → (i : ℕ) → elapsed i < 1000000000 * timeout_secs
      → IsUndecided (poll i)
  over sleeps n late before i soon = elim (Bool-cases (ltb i n)) [
    | inl e ↦ before i (ground arith)
    | inr e ↦ absurd (omega (arith, elapsed_le sleeps n (i - n), ap elapsed (split e)))
  ]
    where
      split : ltb i n ≡ false → n + (i - n) ≡ i
      split e = ground arith

  wait-Ends :
      (fuel n : ℕ)
      → ((i : ℕ) → elapsed i + 500000000 ≤ elapsed (suc i))
      → 1000000000 * timeout_secs ≤ elapsed n + 500000000 * fuel
      → ((i : ℕ) → i < n → IsUndecided (poll i))
      → Ends (wait_loop elapsed poll signature timeout_secs (suc fuel) n)
  unfolding wait_loop Ends
  wait-Ends zero n sleeps h before =
      rw late (_, refl, IsWaitOutcome.timed_out _ (over sleeps n (omega arith) before))
    where
      late : ltb (elapsed n) (1000000000 * timeout_secs) ≡ false
      late = ground arith
  wait-Ends (suc fuel) n sleeps h before =
      elim (Bool-cases (ltb (elapsed n) (1000000000 * timeout_secs))) [
        | inl e ↦ rw e (
            poll_outcome n (poll n)
              (wait_loop elapsed poll signature timeout_secs (suc fuel) (suc n)) (ground arith)
              before refl (λ u. wait-Ends fuel (suc n) sleeps (omega (arith, sleeps n)) (up_to u)))
        | inr e ↦ rw e (_, refl, IsWaitOutcome.timed_out _ (over sleeps n (ground arith) before))
      ]
    where
      up_to : IsUndecided (poll n) → (i : ℕ) → i < suc n → IsUndecided (poll i)
      up_to u i l = elim (Bool-cases (i == n)) [
        | inl q ↦ rw (same i q) u
        | inr q ↦ before i (ground arith)
      ]
        where
          same : (i : ℕ) → (i == n) ≡ true → i ≡ n
          same i q = ground arith

  -- When each round takes half a second at least, the wait for a confirmation ends: by the first
  -- decisive poll, if that is within the timeout, which saw the transaction confirmed or failed; and
  -- otherwise by a timeout error, when no poll within the timeout's seconds was decisive. It never
  -- answers that the transaction is not confirmed.
  pub wait_for_confirmation-IsWaitOutcome :
      ((i : ℕ) → elapsed i + 500000000 ≤ elapsed (suc i))
      → (outcome : Result Bool) × (wait_for_confirmation elapsed poll signature timeout_secs
          ≡ some outcome)
        × IsWaitOutcome elapsed poll timeout_secs outcome
  unfolding wait_for_confirmation Ends
  wait_for_confirmation-IsWaitOutcome sleeps =
      wait-Ends (2 * timeout_secs) 0 sleeps (omega arith) (λ i l. absurd (omega arith))
