-- ===== src/Service/BackoffBounds.antt =====
-- Bounds of the retry delay of src/app/service.rs.
use solana_compliance_relaye.Prelude.{
  ℕ, zero, suc, ◌≡◌, refl, ◌*◌, ◌≤◌, min, arith, leb, if◌then◌else◌,
}
use solana_compliance_relaye.Service.Backoff.{calculate_backoff}

abbrev eight_more : ℕ → ℕ
eight_more m = suc (suc (suc (suc (suc (suc (suc (suc m)))))))

saturated : (m : ℕ) → calculate_backoff (eight_more m) ≡ 256
unfolding calculate_backoff
saturated m = rw (min_eight m) refl
  where
    min_eight : (k : ℕ) → min (eight_more k) 8 ≡ 8
    min_eight k = omega arith

late :
    (m : ℕ)
    → (1 ≤ calculate_backoff (eight_more m))
      × (calculate_backoff (eight_more m) ≤ 256)
      × (calculate_backoff (suc (eight_more m)) ≡ (
          if leb 8 (eight_more m)
          then calculate_backoff (eight_more m)
          else 2 * calculate_backoff (eight_more m)))
late m = (
  omega (arith, saturated m),
  omega (arith, saturated m),
  ground (arith, saturated m, saturated (suc m)),
)

-- The delay is between 1 and 256 seconds, so the cap of 300 seconds is never reached; it doubles
-- with each of the first eight failures, and is 256 seconds from then on.
pub calculate_backoff_bounds :
    (n : ℕ)
    → (1 ≤ calculate_backoff n)
      × (calculate_backoff n ≤ 256)
      × (calculate_backoff (suc n)
          ≡ (if leb 8 n then calculate_backoff n else 2 * calculate_backoff n))
unfolding calculate_backoff
calculate_backoff_bounds zero = (omega arith, omega arith, refl)
calculate_backoff_bounds (suc zero) = (omega arith, omega arith, refl)
calculate_backoff_bounds (suc (suc zero)) = (omega arith, omega arith, refl)
calculate_backoff_bounds (suc (suc (suc zero))) = (omega arith, omega arith, refl)
calculate_backoff_bounds (suc (suc (suc (suc zero)))) = (omega arith, omega arith, refl)
calculate_backoff_bounds (suc (suc (suc (suc (suc zero))))) = (omega arith, omega arith, refl)
calculate_backoff_bounds (suc (suc (suc (suc (suc (suc zero)))))) = (omega arith, omega arith, refl)
calculate_backoff_bounds (suc (suc (suc (suc (suc (suc (suc zero))))))) =
    (omega arith, omega arith, refl)
calculate_backoff_bounds (suc (suc (suc (suc (suc (suc (suc (suc m)))))))) = late m
