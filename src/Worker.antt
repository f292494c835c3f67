-- ===== src/Worker.antt =====
-- The background loops of src/app/worker.rs, and the anonymity check of
-- src/infra/privacy/health_check.rs that the worker holds ready.
pub mod Privacy
pub mod Loops
use solana_compliance_relaye.Prelude.{ℕ, Bool, true, false, ◌&&◌, List, [], ◌∷◌, if◌then◌else◌}
use solana_compliance_relaye.Runtime.{Env, World}
use solana_compliance_relaye.Service.Dispatch.{process_pending_submissions}
use solana_compliance_relaye.Service.Crank.{process_stale_submitted_transactions}

pub record WorkerConfig : Type 0 where
  pub batch_size : ℕ
  pub enabled : Bool
  pub enable_privacy_checks : Bool

pub record CrankConfig : Type 0 where
  pub stale_after_secs : ℕ
  pub batch_size : ℕ
  pub enabled : Bool

-- What `select!` wakes up with: the poll interval has passed, or the shutdown channel has changed
-- (whether `changed()` returned `Ok`, and the value that the channel holds).
pub data Wake : Type 0 where
  elapsed : Wake
  changed : Bool → Bool → Wake

-- The state when the loop stands still, and whether it has ended.
abbrev pub Halt : Type 0
Halt = World × Bool

-- The loop that both tasks have, around the round of each.
unfoldable pub loop : (World → World) → List Wake → World → Halt
loop round [] w = (w, false)
loop round (Wake.elapsed ∷ wakes) w = loop round wakes (round w)
loop round (Wake.changed received value ∷ wakes) w =
    let rest = loop round wakes w in if received && value then (w, true) else rest

-- `run`: a disabled task ends at once.
unfoldable pub run_enabled : Bool → (World → World) → List Wake → World → Halt
unfolding loop
run_enabled enabled round wakes w =
    let result = loop round wakes w in if enabled then result else (w, true)

module _ (env : Env) where
  -- An error of the round is only logged.
  unfoldable pub process_batch : WorkerConfig → World → World
  process_batch config w = (process_pending_submissions env config.batch_size w).1

  unfoldable pub process_stale : CrankConfig → World → World
  process_stale config w =
      (process_stale_submitted_transactions env config.stale_after_secs config.batch_size w).1

  unfoldable pub worker_run : WorkerConfig → List Wake → World → Halt
  unfolding run_enabled process_batch
  worker_run config wakes w = run_enabled config.enabled (process_batch config) wakes w

  unfoldable pub crank_run : CrankConfig → List Wake → World → Halt
  unfolding run_enabled process_stale
  crank_run config wakes w = run_enabled config.enabled (process_stale config) wakes w

  unfoldable pub worker_run_once : WorkerConfig → World → World
  unfolding process_batch
  worker_run_once config w =
      let result = process_batch config w in if config.enabled then result else w
