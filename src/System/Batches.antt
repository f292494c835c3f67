-- ===== src/System/Batches.antt =====
-- The two statements of src/infra/database/postgres.rs that hand out work hand out screened rows.
use solana_compliance_relaye.Prelude.{
  ℕ, ◌≡◌, refl, sym, ap, ◌∙◌, inl, inr, Bool, true, false, Option, none, some, List, [], ◌∷◌,
  String, str_eq, eq_iff, All, All-weaken, All-keep_if, All-take, All-map, Bool-cases, arith,
  if◌then◌else◌, map,
}
use solana_compliance_relaye.Domain.Transfer.{TransferRequest}
use solana_compliance_relaye.Runtime.{Env}
use solana_compliance_relaye.Database.Table.{find, UniqueIds, opt_map}
use solana_compliance_relaye.Database.Gives.{Gives, Gives-statement}
use solana_compliance_relaye.Database.Claim.{
  rows_stand, claimable-All, All-contains_id, sort_by-All,
}
use solana_compliance_relaye.Database.Queue.{
  is_eligible, claim_row, claim_rows, claimed_rows, contains_id, claimable, is_stale,
  get_pending_blockchain_requests, get_stale_submitted_transactions,
}
use solana_compliance_relaye.System.Screened.{
  IsSound, IsScreened, is_unscreened, EachWaits, WaitsForScreening, IsSound-quiet,
}

-- A claimed table under a key.
find-claim_rows :
    (now : ℕ) (picked : List TransferRequest) (j : String) (rows : List TransferRequest)
    → find j (claim_rows now picked rows)
      ≡ (if contains_id j picked then opt_map (claim_row now) (find j rows) else find j rows)
unfolding find claim_rows
find-claim_rows now picked j [] = ground arith
find-claim_rows now picked j (r ∷ rows) =
    by_tests (contains_id r.id picked) refl (str_eq r.id j) refl (find-claim_rows now picked j rows)
  where
    by_tests :
        (b : Bool)
        → contains_id r.id picked ≡ b
        → (c : Bool) → str_eq r.id j ≡ c
        → find j (claim_rows now picked rows)
          ≡ (if contains_id j picked then opt_map (claim_row now) (find j rows) else find j rows)
        → find j ((if b then claim_row now r else r) ∷ claim_rows now picked rows) ≡ (
            if contains_id j picked
            then opt_map (claim_row now) (if c then some r else find j rows)
            else if c
            then some r
            else find j rows)
    by_tests true e true f h =
        rw (f, sym (ap (λ k. contains_id k picked) ((eq_iff r.id j).0 f)) ∙ e) refl
    by_tests false e true f h =
        rw (f, sym (ap (λ k. contains_id k picked) ((eq_iff r.id j).0 f)) ∙ e) refl
    by_tests true e false f h = rw f h
    by_tests false e false f h = rw f h

claim_rows-UniqueIds :
    (now : ℕ) (picked rows : List TransferRequest)
    → UniqueIds rows
    → UniqueIds (claim_rows now picked rows)
unfolding claim_rows
claim_rows-UniqueIds now picked [] u = tt
claim_rows-UniqueIds now picked (r ∷ rows) u = elim (Bool-cases (contains_id r.id picked)) [
  | inl e ↦ rw e (
    find-claim_rows now picked r.id rows ∙ rw (e, u.0) refl,
    claim_rows-UniqueIds now picked rows u.1,
  )
  | inr e ↦ rw e (
    find-claim_rows now picked r.id rows ∙ rw (e, u.0) refl,
    claim_rows-UniqueIds now picked rows u.1,
  )
]

-- The keys of a batch.
abbrev pub ids : List TransferRequest → List String
ids rs = map (λ r. r.id) rs

module _ (now limit : ℕ) (rows : List TransferRequest) where
  IsPicked : TransferRequest → Type 0
  IsPicked r = (find r.id rows ≡ some r) × (is_eligible now r ≡ true)

  eligible_screened :
      (r : TransferRequest) → is_eligible now r ≡ true → is_unscreened r.compliance_status ≡ false
  unfolding is_eligible
  eligible_screened r e = ground arith

  -- A row whose key is picked is screened.
  picked_screened :
      (j : String) (p : TransferRequest)
      → UniqueIds rows
      → find j rows ≡ some p
      → contains_id j (claimable now limit rows) ≡ true
      → is_unscreened p.compliance_status ≡ false
  unfolding IsPicked
  picked_screened j p u e c = of_row (
      All-contains_id {P = IsPicked} j _
        (claimable-All (λ r. find r.id rows ≡ some r) now limit rows (rows_stand rows u)) c)
    where
      of_row :
          (q : TransferRequest) × (q.id ≡ j) × IsPicked q
          → is_unscreened p.compliance_status ≡ false
      of_row (q, k, (f, l)) = eligible_screened p (ap (is_eligible now) (sym same) ∙ l)
        where
          same : q ≡ p
          same = ground (arith, f, e, ap (λ i. find i rows) k)

  claim-EachWaits :
      UniqueIds rows → EachWaits rows → EachWaits (claim_rows now (claimable now limit rows) rows)
  claim-EachWaits u h j q e =
      by_row (contains_id j (claimable now limit rows)) refl (find j rows) refl
        (sym (find-claim_rows now (claimable now limit rows) j rows) ∙ e)
    where
      by_row :
          (b : Bool)
          → contains_id j (claimable now limit rows) ≡ b
          → (o : Option TransferRequest) → find j rows ≡ o
          → (if b then opt_map (claim_row now) o else o) ≡ some q
          → WaitsForScreening q
      by_row true c none g m = ground arith
      by_row true c (some p) g m = inl (ground (arith, m, picked_screened j p u g c))
      by_row false c o g m = h j q (g ∙ m)

  claim-IsScreened :
      (j : String)
      → IsScreened j rows
      → IsScreened j (claim_rows now (claimable now limit rows) rows)
  claim-IsScreened j (q, e, c) = elim (Bool-cases (contains_id j (claimable now limit rows))) [
    | inl b ↦
        (claim_row now q, find-claim_rows now (claimable now limit rows) j rows ∙ rw (b, e) refl, c)
    | inr b ↦ (q, find-claim_rows now (claimable now limit rows) j rows ∙ rw (b, e) refl, c)
  ]

  claimed-IsScreened :
      UniqueIds rows
      → All
          (λ i. IsScreened i (claim_rows now (claimable now limit rows) rows))
          (ids (claimed_rows now (claimable now limit rows) rows))
  unfolding claimed_rows
  claimed-IsScreened u =
      All-map (λ r. IsScreened r.id (claim_rows now (claimable now limit rows) rows)) _ (λ r. r.id)
        _ (λ r h. h)
        (All-map
          (λ r. (find r.id rows ≡ some r) × (contains_id r.id (claimable now limit rows) ≡ true)) _
          (claim_row now) _ (λ r (f, c). claim-IsScreened r.id (r, f, picked_screened r.id r u f c))
          (All-keep_if (λ r. find r.id rows ≡ some r) _ rows (rows_stand rows u)))

module _ (env : Env) where
  -- The claim of the worker knows its batch screened.
  pub claim-Gives :
      (limit : ℕ)
      → Gives
          (IsSound [])
          (get_pending_blockchain_requests env limit)
          (λ batch. IsSound (ids batch))
  unfolding get_pending_blockchain_requests
  claim-Gives limit =
      Gives-statement env _ _ (IsSound-quiet []) (λ batch. IsSound-quiet (ids batch))
        λ now w h. record {
          unique = claim_rows-UniqueIds now _ w.transfers h.unique;
          rows = claim-EachWaits now limit w.transfers h.unique h.rows;
          handed =
              All-weaken _ _ w.submissions (λ r. claim-IsScreened now limit w.transfers r.id)
                h.handed;
          shown = claimed-IsScreened now limit w.transfers h.unique;
        }

  -- So does the query of the crank.
  pub stale-Gives :
      (older_than limit : ℕ)
      → Gives
          (IsSound [])
          (get_stale_submitted_transactions env older_than limit)
          (λ batch. IsSound (ids batch))
  unfolding get_stale_submitted_transactions
  stale-Gives older_than limit =
      Gives-statement env _ _ (IsSound-quiet []) (λ batch. IsSound-quiet (ids batch))
        λ now w h. record {
          unique = h.unique;
          rows = h.rows;
          handed = h.handed;
          shown =
              All-map (λ r. (find r.id w.transfers ≡ some r) × (is_stale now older_than r ≡ true)) _
                (λ r. r.id) _ (λ r (f, s). (r, f, stale_screened now r (h.rows r.id r f) s))
                (All-take _ limit _ (
                  sort_by-All _ _ _ (
                    All-keep_if (λ r. find r.id w.transfers ≡ some r) _ w.transfers
                      (rows_stand w.transfers h.unique))));
        }
    where
      stale_screened :
          (now : ℕ) (r : TransferRequest)
          → WaitsForScreening r
          → is_stale now older_than r ≡ true
          → is_unscreened r.compliance_status ≡ false
      stale_screened now r (inl c) s = c
      stale_screened now r (inr c) s = ground arith
