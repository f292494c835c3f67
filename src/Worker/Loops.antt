-- ===== src/Worker/Loops.antt =====
-- When the loops of src/app/worker.rs end, and what they have done by then.
use solana_compliance_relaye.Prelude.{
  ◌≡◌, refl, Bool, true, false, ◌&&◌, List, [], ◌∷◌, ◌++◌, Bool-cases, inl, inr,
}
use solana_compliance_relaye.Runtime.{Env, World}
use solana_compliance_relaye.Worker.{
  Halt, Wake, WorkerConfig, CrankConfig, loop, run_enabled, worker_run, crank_run,
}

abbrev shutdown : Wake
shutdown = Wake.changed true true

-- A shutdown among the wakes ends the loop, and what would come after it is not looked at.
abbrev pub EndsThere : (List Wake → World → Halt) → List Wake → List Wake → World → Type 0
EndsThere task wakes later w =
    (task (wakes ++ shutdown ∷ later) w ≡ task (wakes ++ shutdown ∷ []) w)
    × ((task (wakes ++ shutdown ∷ later) w).1 ≡ true)

loop-EndsThere :
    (round : World → World) (wakes later : List Wake) (w : World)
    → EndsThere (loop round) wakes later w
unfolding loop
loop-EndsThere round [] later w = (refl, refl)
loop-EndsThere round (Wake.elapsed ∷ wakes) later w = loop-EndsThere round wakes later (round w)
loop-EndsThere round (Wake.changed received value ∷ wakes) later w =
    let (same, ends) = loop-EndsThere round wakes later w in
    elim (Bool-cases (received && value)) [ inl e ↦ rw e (refl, refl) | inr e ↦ rw e (same, ends) ]

run_enabled-EndsThere :
    (enabled : Bool) (round : World → World) (wakes later : List Wake) (w : World)
    → EndsThere (run_enabled enabled round) wakes later w
unfolding run_enabled
run_enabled-EndsThere true round wakes later w = loop-EndsThere round wakes later w
run_enabled-EndsThere false round wakes later w = (refl, refl)

-- The worker and the crank end at the first shutdown notice that arrives, whatever their rounds do,
-- and their state does not depend on what would have come after it.
pub shutdown_ends_loops :
    (env : Env) (worker : WorkerConfig) (crank : CrankConfig) (wakes later : List Wake) (w : World)
    → EndsThere (worker_run env worker) wakes later w
      × EndsThere (crank_run env crank) wakes later w
unfolding worker_run crank_run
shutdown_ends_loops env worker crank wakes later w = (
  run_enabled-EndsThere worker.enabled _ wakes later w,
  run_enabled-EndsThere crank.enabled _ wakes later w,
)
