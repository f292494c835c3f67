-- ===== src/Tests/Worker.antt =====
-- The laws of the worker and the manual retry at work on small worlds.
use solana_compliance_relaye.Database.Statement.{statement}
use solana_compliance_relaye.Blocklist.{check_in}
use solana_compliance_relaye.Prelude.{
  ℕ, ◌≡◌, ◌≤◌, refl, inl, false, some, List, [], ◌∷◌, String, All, arith, ◌&&◌, ◌*◌,
}
use solana_compliance_relaye.Domain.Status.{BlockchainStatus}
use solana_compliance_relaye.Domain.Transfer.{TransferRequest}
use solana_compliance_relaye.Database.Table.{find}
use solana_compliance_relaye.Database.Queue.{
  contains_id, is_eligible, get_pending_blockchain_requests,
}
use solana_compliance_relaye.Database.Claim.{no_double_claim}
use solana_compliance_relaye.Service.Backoff.{calculate_backoff}
use solana_compliance_relaye.Service.BackoffBounds.{calculate_backoff_bounds}
use solana_compliance_relaye.Service.Dispatch.{
  reschedule, process_single_submission, process_pending_submissions,
}
use solana_compliance_relaye.Service.Retry.{retry_blockchain_submission}
use solana_compliance_relaye.Service.Gate.{
  double_spend_guard, untracked_resubmits, resubmits_when_lost,
}
use solana_compliance_relaye.Service.Approval.{IsApproved, worker_submits-IsApproved}
use solana_compliance_relaye.Service.RetryGate.{retry_refuses}
use solana_compliance_relaye.Service.Unverified.{retry_resubmits_unverified}
use solana_compliance_relaye.Service.Stranded.{reschedule_strands}
use solana_compliance_relaye.Runtime.Fails.{IsErr}
use solana_compliance_relaye.Runtime.{ok}
use solana_compliance_relaye.Tests.Fixtures.{
  unknown_env, failed_env, queued, lost, world_of, always_up, always_up2, untracked, claimed_world,
  true_is_not_false,
}

double_spend_guard_example :
    (process_single_submission unknown_env queued (world_of (queued ∷ []) [])).1.submissions ≡ []
double_spend_guard_example =
    double_spend_guard unknown_env queued "sig1" (world_of (queued ∷ []) []) refl refl
      (λ h. true_is_not_false h)

worker_submits-IsApproved_example :
    All IsApproved
      (process_pending_submissions failed_env 10 (world_of (queued ∷ []) [])).1.submissions
worker_submits-IsApproved_example =
    worker_submits-IsApproved failed_env 10 (world_of (queued ∷ []) []) tt

retry_refuses_example :
    IsErr
      (retry_blockchain_submission failed_env "t1" (world_of (lost ∷ []) (("bob", "fraud") ∷ []))).0
    × ((retry_blockchain_submission failed_env "t1"
          (world_of (lost ∷ []) (("bob", "fraud") ∷ []))).1.submissions
        ≡ [])
unfolding find check_in
retry_refuses_example =
    retry_refuses failed_env "t1" lost (world_of (lost ∷ []) (("bob", "fraud") ∷ [])) refl
      (inl (inl refl))

no_double_claim_example :
    (first second : List TransferRequest) × ((get_pending_blockchain_requests unknown_env 5
        (world_of (queued ∷ []) [])).0
      ≡ ok first)
    × ((get_pending_blockchain_requests unknown_env 5 claimed_world).0 ≡ ok second)
    × ((i : String) → (contains_id i first && contains_id i second) ≡ false)
unfolding get_pending_blockchain_requests statement
no_double_claim_example =
    no_double_claim unknown_env 5 5 (world_of (queued ∷ []) []) claimed_world refl refl refl
      (omega arith)

retry_resubmits_unverified_example :
    (retry_blockchain_submission unknown_env "t1" (world_of (lost ∷ []) [])).1.submissions
    ≡ lost ∷ []
unfolding find check_in
retry_resubmits_unverified_example =
    retry_resubmits_unverified unknown_env "t1" "sig1" lost (world_of (lost ∷ []) []) always_up refl
      refl refl refl refl refl refl tt

untracked_resubmits_example :
    (process_single_submission unknown_env untracked (world_of (untracked ∷ []) [])).1.submissions
    ≡ untracked ∷ []
untracked_resubmits_example =
    untracked_resubmits unknown_env untracked (world_of (untracked ∷ []) []) refl refl

resubmits_when_lost_example :
    (process_single_submission failed_env queued (world_of (queued ∷ []) [])).1.submissions
    ≡ queued ∷ []
resubmits_when_lost_example =
    resubmits_when_lost failed_env queued "sig1" (world_of (queued ∷ []) []) always_up2 refl refl
      refl tt

reschedule_strands_example :
    (row : TransferRequest) × (find "t1"
        (reschedule unknown_env queued "waiting" (world_of (queued ∷ []) [])).1.transfers
      ≡ some row)
    × (row.blockchain_status ≡ BlockchainStatus.pending_submission)
    × ((now : ℕ) → is_eligible now row ≡ false)
unfolding find
reschedule_strands_example =
    reschedule_strands unknown_env queued queued "waiting" (world_of (queued ∷ []) []) always_up
      refl refl (omega arith)

calculate_backoff_bounds_example :
    (1 ≤ calculate_backoff 3)
    × (calculate_backoff 3 ≤ 256)
    × (calculate_backoff 4 ≡ 2 * calculate_backoff 3)
calculate_backoff_bounds_example = calculate_backoff_bounds 3
