-- ===== src/Database/Queue.antt =====
-- The two statements of src/infra/database/postgres.rs that hand out work: the atomic claim of the
-- retry worker and the query of the stale-transaction crank.
use solana_compliance_relaye.Prelude.{
  ℕ, ◌+◌, Bool, true, false, ◌&&◌, ◌||◌, Option, none, some, List, [], ◌∷◌, String, str_eq, ltb,
  leb, ◌==◌, map, take, keep_if, if◌then◌else◌,
}
use solana_compliance_relaye.Domain.Status.{
  BlockchainStatus, is_pending_submission, is_processing, is_approved, is_submitted,
}
use solana_compliance_relaye.Domain.Transfer.{TransferRequest}
use solana_compliance_relaye.Runtime.{Env, ok, Action, seconds}
use solana_compliance_relaye.Database.Statement.{query_error, statement}

-- `blockchain_next_retry_at IS NULL OR blockchain_next_retry_at <= $1`
abbrev pub is_due : ℕ → Option ℕ → Bool
is_due now none = true
is_due now (some t) = leb t now

-- The WHERE clause of the claim.
unfoldable pub is_eligible : ℕ → TransferRequest → Bool
is_eligible now r =
    (is_pending_submission r.blockchain_status
      || (is_processing r.blockchain_status && ltb (r.updated_at + seconds 300) now))
    && is_approved r.compliance_status
    && is_due now r.blockchain_next_retry_at
    && ltb r.blockchain_retry_count 10

-- A stable insertion sort, for ORDER BY.
unfoldable pub insert_by :
    (TransferRequest → TransferRequest → Bool)
    → TransferRequest
    → List TransferRequest
    → List TransferRequest
insert_by before r [] = r ∷ []
insert_by before r (q ∷ qs) = if before q r then q ∷ insert_by before r qs else r ∷ q ∷ qs

unfoldable pub sort_by :
    (TransferRequest → TransferRequest → Bool) → List TransferRequest → List TransferRequest
unfolding insert_by
sort_by before [] = []
sort_by before (r ∷ rs) = insert_by before r (sort_by before rs)

-- `ORDER BY blockchain_next_retry_at ASC NULLS FIRST, created_at ASC`: whether the first row comes
-- strictly before the second.
claim_before_at : Option ℕ → Option ℕ → ℕ → ℕ → Bool
claim_before_at none none c d = ltb c d
claim_before_at none (some _) c d = true
claim_before_at (some _) none c d = false
claim_before_at (some t) (some u) c d = ltb t u || (t == u && ltb c d)

unfoldable pub claim_before : TransferRequest → TransferRequest → Bool
unfolding claim_before_at
claim_before a b =
    claim_before_at a.blockchain_next_retry_at b.blockchain_next_retry_at a.created_at b.created_at

abbrev pub contains_id : String → List TransferRequest → Bool
contains_id i [] = false
contains_id i (r ∷ rs) = str_eq r.id i || contains_id i rs

-- The subquery: the rows to claim.
unfoldable pub claimable : ℕ → ℕ → List TransferRequest → List TransferRequest
unfolding sort_by claim_before is_eligible
claimable now limit rows = take limit (sort_by claim_before (keep_if (is_eligible now) rows))

abbrev pub claim_row : ℕ → TransferRequest → TransferRequest
claim_row now r = record r { blockchain_status = BlockchainStatus.processing; updated_at = now }

-- `UPDATE … WHERE id IN (…)`, and what it returns.
unfoldable pub claim_rows : ℕ → List TransferRequest → List TransferRequest → List TransferRequest
claim_rows now picked [] = []
claim_rows now picked (r ∷ rs) =
    (if contains_id r.id picked then claim_row now r else r) ∷ claim_rows now picked rs

unfoldable pub claimed_rows : ℕ → List TransferRequest → List TransferRequest → List TransferRequest
claimed_rows now picked rows = map (claim_row now) (keep_if (λ r. contains_id r.id picked) rows)

abbrev pub is_stale : ℕ → ℕ → TransferRequest → Bool
is_stale now older_than r =
    is_submitted r.blockchain_status && ltb (r.updated_at + seconds older_than) now

abbrev updated_before : TransferRequest → TransferRequest → Bool
updated_before a b = ltb a.updated_at b.updated_at

module _ (env : Env) where
  -- The claim and its two clocks (`$1` and NOW()) fall into one moment.
  unfoldable pub get_pending_blockchain_requests : ℕ → Action (List TransferRequest)
  unfolding claimable claim_rows claimed_rows
  get_pending_blockchain_requests limit = statement env (query_error env) λ now w.
      let picked = claimable now limit w.transfers in
      (
        ok (claimed_rows now picked w.transfers),
        record w { transfers = claim_rows now picked w.transfers },
      )

  unfoldable pub get_stale_submitted_transactions : ℕ → ℕ → Action (List TransferRequest)
  unfolding sort_by
  get_stale_submitted_transactions older_than limit = statement env (query_error env) λ now w.
      (ok (take limit (sort_by updated_before (keep_if (is_stale now older_than) w.transfers))), w)
