-- ===== src/Database/Claim.antt =====
-- What the atomic claim of src/infra/database/postgres.rs hands out.
use solana_compliance_relaye.Prelude.{
  ℕ, ◌+◌, ◌≡◌, ◌≤◌, refl, sym, ap, ◌∙◌, inl, inr, Bool, true, false, ◌&&◌, none, some, List, [],
  ◌∷◌, String, str_eq, str_eq_self, eq_iff, arith, if◌then◌else◌, All, All-take, All-keep_if,
  All-every, All-map, All-weaken, Bool-cases,
}
use solana_compliance_relaye.Domain.Status.{BlockchainStatus}
use solana_compliance_relaye.Domain.Transfer.{TransferRequest}
use solana_compliance_relaye.Runtime.{Env, World, ok, seconds}
use solana_compliance_relaye.Database.Statement.{statement}
use solana_compliance_relaye.Database.Claimable.{WasClaimable}
use solana_compliance_relaye.Database.Table.{find, UniqueIds}
use solana_compliance_relaye.Database.Queue.{
  is_eligible, insert_by, sort_by, claim_before, contains_id, claimable, claim_row, claim_rows,
  claimed_rows, get_pending_blockchain_requests,
}

module _ (P : TransferRequest → Type 0) where
  insert_by-All :
      (before : TransferRequest → TransferRequest → Bool) (r : TransferRequest)
      (rs : List TransferRequest)
      → P r
      → All P rs
      → All P (insert_by before r rs)
  unfolding insert_by
  insert_by-All before r [] p h = (p, tt)
  insert_by-All before r (q ∷ qs) p h = elim (Bool-cases (before q r)) [
    | inl e ↦ simp e (h.0, insert_by-All before r qs p h.1)
    | inr e ↦ simp e (p, h)
  ]

  pub sort_by-All :
      (before : TransferRequest → TransferRequest → Bool) (rs : List TransferRequest)
      → All P rs
      → All P (sort_by before rs)
  unfolding sort_by
  sort_by-All before [] h = tt
  sort_by-All before (r ∷ rs) h = insert_by-All before r _ h.0 (sort_by-All before rs h.1)

-- The rows to claim are eligible rows of the table.
pub claimable-All :
    (P : TransferRequest → Type 0) (now limit : ℕ) (rows : List TransferRequest)
    → All P rows
    → All (λ r. P r × (is_eligible now r ≡ true)) (claimable now limit rows)
unfolding claimable
claimable-All P now limit rows h =
    All-take (λ r. P r × (is_eligible now r ≡ true)) limit _
      (sort_by-All _ claim_before _ (All-keep_if P (is_eligible now) rows h))

-- A row with the key of a listed row.
pub All-contains_id :
    {P : TransferRequest → Type 0} (i : String) (rs : List TransferRequest)
    → All P rs
    → contains_id i rs ≡ true
    → (r : TransferRequest) × (r.id ≡ i) × P r
All-contains_id i [] h e = ground arith
All-contains_id i (r ∷ rs) h e = elim (Bool-cases (str_eq r.id i)) [
  | inl s ↦ (r, ground (arith, eq_iff r.id i), h.0)
  | inr s ↦ All-contains_id i rs h.1 (ground arith)
]

-- A claimed row is out of reach for five minutes.
claim_row-ineligible :
    (now later : ℕ) (r : TransferRequest)
    → later ≤ now + seconds 300
    → is_eligible later (claim_row now r) ≡ false
unfolding is_eligible
claim_row-ineligible now later r h = ground arith

-- What a claimable row of a table becomes: the row under its key, now processing, and otherwise as it
-- was.
abbrev pub IsClaimOf : ℕ → List TransferRequest → TransferRequest → Type 0
IsClaimOf now rows r =
    (q : TransferRequest) × (find r.id rows ≡ some q)
    × WasClaimable now q
    × (r ≡ record q { blockchain_status = BlockchainStatus.processing; updated_at = now })

-- Every row stands under its key when the keys are distinct.
pub rows_stand : (rs : List TransferRequest) → UniqueIds rs → All (λ r. find r.id rs ≡ some r) rs
unfolding find
rows_stand [] u = tt
rows_stand (r ∷ rs) u = (
  ground (arith, str_eq_self r.id),
  All-weaken (λ q. find q.id rs ≡ some q) (λ q. find q.id (r ∷ rs) ≡ some q) rs
      (λ q h. ground (arith, eq_iff r.id q.id, h, u.0)) (rows_stand rs u.1),
)

-- What the first of two claims leaves out of reach of the second.
abbrev IsLeft : ℕ → List TransferRequest → TransferRequest → Type 0
IsLeft later picked r = contains_id r.id picked ≡ true → is_eligible later r ≡ false

claim_rows-All :
    (now later : ℕ) (picked rows : List TransferRequest)
    → later ≤ now + seconds 300
    → All (IsLeft later picked) (claim_rows now picked rows)
unfolding claim_rows
claim_rows-All now later picked [] h = tt
claim_rows-All now later picked (r ∷ rs) h =
    (go (contains_id r.id picked) refl, claim_rows-All now later picked rs h)
  where
    go :
        (b : Bool)
        → contains_id r.id picked ≡ b
        → IsLeft later picked (if b then claim_row now r else r)
    go true e c = claim_row-ineligible now later r h
    go false e c = ground arith

-- A key among the claimed rows is among the picked ones.
claimed_rows-contains :
    (now : ℕ) (picked rows : List TransferRequest) (i : String)
    → contains_id i (claimed_rows now picked rows) ≡ true
    → contains_id i picked ≡ true
unfolding claimed_rows
claimed_rows-contains now picked rows i e = of_key (All-contains_id i _ claimed e)
  where
    claimed : All (λ r. contains_id r.id picked ≡ true) (claimed_rows now picked rows)
    claimed =
        All-map (λ r. Unit {0} × (contains_id r.id picked ≡ true)) _ (claim_row now) _ (λ r h. h.1)
          (All-keep_if (λ _. Unit {0}) _ rows (All-every _ rows (λ _. tt)))

    of_key :
        (r : TransferRequest) × (r.id ≡ i) × (contains_id r.id picked ≡ true)
        → contains_id i picked ≡ true
    of_key (r, k, c) = ap (λ j. contains_id j picked) (sym k) ∙ c

-- Two claims that the database answers, the second on the table that the first left and at most five
-- minutes later, hand out no key twice.
pub no_double_claim :
    (env : Env) (limit limit2 : ℕ) (w v : World)
    → env.fault w.tick ≡ none
    → env.fault v.tick ≡ none
    → v.transfers ≡ (get_pending_blockchain_requests env limit w).1.transfers
    → env.clock v.tick ≤ env.clock w.tick + seconds 300
    → (first second : List TransferRequest) × ((get_pending_blockchain_requests env limit w).0
        ≡ ok first)
      × ((get_pending_blockchain_requests env limit2 v).0 ≡ ok second)
      × ((i : String) → (contains_id i first && contains_id i second) ≡ false)
unfolding get_pending_blockchain_requests statement
no_double_claim env limit limit2 w v up up2 next soon = (
  claimed_rows (env.clock w.tick) picked w.transfers,
  claimed_rows (env.clock v.tick) picked2 v.transfers,
  rw up refl,
  rw up2 refl,
  λ i. by_first i (contains_id i (claimed_rows (env.clock w.tick) picked w.transfers)) refl,
)
  where
    picked : List TransferRequest
    picked = claimable (env.clock w.tick) limit w.transfers

    picked2 : List TransferRequest
    picked2 = claimable (env.clock v.tick) limit2 v.transfers

    same : v.transfers ≡ claim_rows (env.clock w.tick) picked w.transfers
    same = next ∙ rw up refl

    left : All (IsLeft (env.clock v.tick) picked) v.transfers
    left = rw same (claim_rows-All (env.clock w.tick) (env.clock v.tick) picked w.transfers soon)

    IsSecond : TransferRequest → Type 0
    IsSecond r = IsLeft (env.clock v.tick) picked r × (is_eligible (env.clock v.tick) r ≡ true)

    not_both :
        (i : String)
        → contains_id i picked ≡ true
        → ¬ ((r : TransferRequest) × (r.id ≡ i) × IsSecond r)
    not_both i c (r, k, (l, e)) = ground (arith, l (ap (λ j. contains_id j picked) k ∙ c), e)

    apart :
        (i : String)
        → contains_id i picked ≡ true
        → contains_id i (claimed_rows (env.clock v.tick) picked2 v.transfers) ≡ false
    apart i c =
        elim (Bool-cases (contains_id i (claimed_rows (env.clock v.tick) picked2 v.transfers))) [
          | inr e ↦ e
          | inl e ↦ absurd (
              not_both i c (
                All-contains_id i picked2
                  (claimable-All _ (env.clock v.tick) limit2 v.transfers left)
                  (claimed_rows-contains (env.clock v.tick) picked2 v.transfers i e)))
        ]

    by_first :
        (i : String) (b : Bool)
        → contains_id i (claimed_rows (env.clock w.tick) picked w.transfers) ≡ b
        → (b && contains_id i (claimed_rows (env.clock v.tick) picked2 v.transfers)) ≡ false
    by_first i true c = apart i (claimed_rows-contains (env.clock w.tick) picked w.transfers i c)
    by_first i false c = refl
