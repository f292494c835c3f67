-- ===== src/Database/Claimable.antt =====
-- Which rows the claim of src/infra/database/postgres.rs may take, told by their fields.
use solana_compliance_relaye.Prelude.{
  ℕ, ◌+◌, ◌≡◌, ◌≤◌, ◌<◌, ◌⊎◌, refl, inl, inr, Bool, true, ◌&&◌, ◌||◌, Option, none, some, ltb,
  arith,
}
use solana_compliance_relaye.Domain.Status.{
  BlockchainStatus, ComplianceStatus, is_pending_submission, is_processing, is_approved,
}
use solana_compliance_relaye.Domain.Transfer.{TransferRequest}
use solana_compliance_relaye.Runtime.{seconds}
use solana_compliance_relaye.Database.Queue.{is_eligible, is_due}

-- A row that may be claimed: it waits for its submission, or its claim is more than five minutes old,
-- and it is approved, due and has failed fewer than ten times.
pub record WasClaimable (now : ℕ) (q : TransferRequest) : Type 0 where
  pub waiting :
      (q.blockchain_status ≡ BlockchainStatus.pending_submission)
      ⊎ ((q.blockchain_status ≡ BlockchainStatus.processing) × (q.updated_at + seconds 300 < now))
  pub approved : q.compliance_status ≡ ComplianceStatus.approved
  pub due :
      (q.blockchain_next_retry_at ≡ none)
      ⊎ ((t : ℕ) × (q.blockchain_next_retry_at ≡ some t) × (t ≤ now))
  pub few_failures : q.blockchain_retry_count < 10

waiting_of :
    (s : BlockchainStatus) (old : Bool)
    → (is_pending_submission s || (is_processing s && old)) ≡ true
    → (s ≡ BlockchainStatus.pending_submission) ⊎ ((s ≡ BlockchainStatus.processing) × (old ≡ true))
waiting_of BlockchainStatus.pending_submission old h = inl refl
waiting_of BlockchainStatus.processing old h = inr (refl, h)
waiting_of _ old h = absurd (ground arith)

approved_of : (s : ComplianceStatus) → is_approved s ≡ true → s ≡ ComplianceStatus.approved
approved_of ComplianceStatus.approved h = refl
approved_of _ h = absurd (ground arith)

due_of :
    (now : ℕ) (o : Option ℕ)
    → is_due now o ≡ true
    → (o ≡ none) ⊎ ((t : ℕ) × (o ≡ some t) × (t ≤ now))
due_of now none h = inl refl
due_of now (some t) h = inr (t, refl, ground arith)

pub eligible-WasClaimable :
    (now : ℕ) (q : TransferRequest) → is_eligible now q ≡ true → WasClaimable now q
unfolding is_eligible
eligible-WasClaimable now q e = record {
  waiting = elim (waiting_of q.blockchain_status (ltb (q.updated_at + seconds 300) now) h.0) [
    | inl k ↦ inl k
    | inr (k, old) ↦ inr (k, ground arith)
  ];
  approved = approved_of q.compliance_status h.1;
  due = due_of now q.blockchain_next_retry_at h.2;
  few_failures = of_count h.3;
}
  where
    parts :
        (a b c d : Bool)
        → (a && b && c && d) ≡ true
        → (a ≡ true) × (b ≡ true) × (c ≡ true) × (d ≡ true)
    parts true true true true k = (refl, refl, refl, refl)
    parts _ _ _ _ k = absurd (ground arith)

    h :
        ((is_pending_submission q.blockchain_status
            || (is_processing q.blockchain_status && ltb (q.updated_at + seconds 300) now))
          ≡ true)
        × (is_approved q.compliance_status ≡ true)
        × (is_due now q.blockchain_next_retry_at ≡ true)
        × (ltb q.blockchain_retry_count 10 ≡ true)
    h = parts _ _ _ _ e

    of_count : ltb q.blockchain_retry_count 10 ≡ true → q.blockchain_retry_count < 10
    of_count k = ground arith
