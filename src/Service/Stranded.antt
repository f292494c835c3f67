-- ===== src/Service/Stranded.antt =====
-- Requests of src/app/service.rs that the worker puts back without a submission.
use solana_compliance_relaye.Prelude.{
  ℕ, suc, ◌+◌, ◌≡◌, ◌≤◌, refl, true, false, none, some, String, arith, ltb,
}
use solana_compliance_relaye.Domain.Status.{BlockchainStatus}
use solana_compliance_relaye.Domain.Transfer.{TransferRequest}
use solana_compliance_relaye.Runtime.{Env, World, ask, ◌>>=◌, seconds}
use solana_compliance_relaye.Database.Table.{find, modify}
use solana_compliance_relaye.Database.Queue.{is_eligible}
use solana_compliance_relaye.Database.Transfers.{set_blockchain, set_retry_count, max_i32}
use solana_compliance_relaye.Database.Effects.{
  find-modify_self, increment_retry_count_up, update_blockchain_status_up,
}
use solana_compliance_relaye.Service.Backoff.{calculate_backoff}
use solana_compliance_relaye.Service.Dispatch.{reschedule}

-- A stored request that is put back into the queue without a submission, when the database answers
-- and its count has reached nine but not the end of its column, stands there pending submission,
-- but no claim takes it any more, at any time.
pub reschedule_strands :
    (env : Env) (r q : TransferRequest) (message : String) (w : World)
    → ((n : ℕ) → env.fault n ≡ none)
    → find r.id w.transfers ≡ some q
    → ltb q.blockchain_retry_count max_i32 ≡ true
    → 9 ≤ q.blockchain_retry_count
    → (row : TransferRequest) × (find r.id (reschedule env r message w).1.transfers ≡ some row)
      × (row.blockchain_status ≡ BlockchainStatus.pending_submission)
      × ((now : ℕ) → is_eligible now row ≡ false)
unfolding reschedule ask ◌>>=◌ calculate_backoff is_eligible
reschedule_strands env r q message w up found small many =
    rw (increment_retry_count_up env r.id w (up w.tick) found small) (
      rw
        (update_blockchain_status_up env r.id BlockchainStatus.pending_submission none
          (some message)
          (some
            (env.clock (suc w.tick) + seconds (calculate_backoff (suc q.blockchain_retry_count))))
          none v (up v.tick) again)
        (row, find-modify_self r.id _ v.transfers (λ x. refl) again, refl, λ now. ground arith))
  where
    v : World
    v = record w {
      transfers = modify r.id (set_retry_count (env.clock w.tick)) w.transfers;
      tick = suc (suc w.tick);
    }

    again : find r.id v.transfers ≡ some (set_retry_count (env.clock w.tick) q)
    again = find-modify_self r.id _ w.transfers (λ x. refl) found

    row : TransferRequest
    row =
        set_blockchain BlockchainStatus.pending_submission none (some message)
          (some
            (env.clock (suc w.tick) + seconds (calculate_backoff (suc q.blockchain_retry_count))))
          none (env.clock v.tick) (set_retry_count (env.clock w.tick) q)
