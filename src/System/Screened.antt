-- ===== src/System/Screened.antt =====
-- The invariant of the table `transfer_requests` of src/infra/database/postgres.rs and of the record
-- of submissions.
use solana_compliance_relaye.Prelude.{
  ◌≡◌, refl, sym, ◌∙◌, ◌⊎◌, inl, inr, Bool, true, false, Option, none, some, List, [], ◌∷◌, String,
  str_eq, eq_iff, All, All-weaken, Bool-cases, arith, if◌then◌else◌,
}
use solana_compliance_relaye.Domain.Status.{BlockchainStatus, ComplianceStatus}
use solana_compliance_relaye.Domain.Transfer.{TransferRequest}
use solana_compliance_relaye.Runtime.{World}
use solana_compliance_relaye.Runtime.Keeps.{IsQuiet}
use solana_compliance_relaye.Database.Table.{find, modify, opt_map, KeepsId, UniqueIds, find-modify}

-- Not screened yet.
abbrev pub is_unscreened : ComplianceStatus → Bool
is_unscreened ComplianceStatus.pending = true
is_unscreened _ = false

abbrev pub is_received : BlockchainStatus → Bool
is_received BlockchainStatus.received = true
is_received _ = false

-- A row that is not screened has only been received.
abbrev pub WaitsForScreening : TransferRequest → Type 0
WaitsForScreening r =
    (is_unscreened r.compliance_status ≡ false) ⊎ (is_received r.blockchain_status ≡ true)

-- The request with this key stands in the table, screened.
abbrev pub IsScreened : String → List TransferRequest → Type 0
IsScreened i rows =
    (q : TransferRequest) × (find i rows ≡ some q) × (is_unscreened q.compliance_status ≡ false)

abbrev pub EachWaits : List TransferRequest → Type 0
EachWaits rows = (i : String) (q : TransferRequest) → find i rows ≡ some q → WaitsForScreening q

-- The keys in `known` are those that an operation under way has learned to be screened.
pub record IsSound (known : List String) (w : World) : Type 0 where
  pub unique : UniqueIds w.transfers
  pub rows : EachWaits w.transfers
  pub handed : All (λ r. IsScreened r.id w.transfers) w.submissions
  pub shown : All (λ i. IsScreened i w.transfers) known

pub IsSound-quiet : (known : List String) → IsQuiet (IsSound known)
IsSound-quiet known w n h = record {
  unique = h.unique;
  rows = h.rows;
  handed = h.handed;
  shown = h.shown;
}

-- What is known covers a key.
abbrev pub Shows : List String → String → Type 0
Shows known i =
    (rows : List TransferRequest) → All (λ j. IsScreened j rows) known → IsScreened i rows

-- A new table with the same screened keys.
pub IsSound-map :
    (known : List String) (w v : World)
    → v.submissions ≡ w.submissions
    → UniqueIds v.transfers
    → EachWaits v.transfers
    → ((i : String) → IsScreened i w.transfers → IsScreened i v.transfers)
    → IsSound known w
    → IsSound known v
IsSound-map known w v same u r keep h = record {
  unique = u;
  rows = r;
  handed = rw same (All-weaken _ _ w.submissions (λ q. keep q.id) h.handed);
  shown = All-weaken _ _ known keep h.shown;
}

module _ (i : String) (f : TransferRequest → TransferRequest) (rows : List TransferRequest) where
  pub modify-IsScreened :
      KeepsId f
      → ((r : TransferRequest)
          → is_unscreened r.compliance_status ≡ false
          → is_unscreened (f r).compliance_status ≡ false)
      → (j : String) → IsScreened j rows
      → IsScreened j (modify i f rows)
  modify-IsScreened k s j (q, e, c) = elim (Bool-cases (str_eq i j)) [
    | inl b ↦ (f q, find-modify i j f rows k ∙ rw (b, e) refl, s q c)
    | inr b ↦ (q, find-modify i j f rows k ∙ rw (b, e) refl, c)
  ]

  pub modify-EachWaits :
      KeepsId f
      → ((q : TransferRequest)
          → find i rows ≡ some q
          → WaitsForScreening q
          → WaitsForScreening (f q))
      → EachWaits rows
      → EachWaits (modify i f rows)
  modify-EachWaits k s h j q e =
      by_row (str_eq i j) refl (find j rows) refl (sym (find-modify i j f rows k) ∙ e)
    where
      by_row :
          (b : Bool)
          → str_eq i j ≡ b
          → (o : Option TransferRequest) → find j rows ≡ o
          → (if b then opt_map f o else o) ≡ some q
          → WaitsForScreening q
      by_row true c none g m = ground arith
      by_row true c (some p) g m = ground (arith, m, s p (ground (arith, eq_iff i j, g)) (h j p g))
      by_row false c o g m = h j q (g ∙ m)

-- What is known grows by a key that the table shows screened, and shrinks by any.
pub IsSound-learn :
    {known : List String} (i : String) (w : World)
    → IsScreened i w.transfers
    → IsSound known w
    → IsSound (i ∷ known) w
IsSound-learn i w s h = record {
  unique = h.unique;
  rows = h.rows;
  handed = h.handed;
  shown = (s, h.shown);
}

pub IsSound-tail :
    {known : List String} {i : String} (w : World) → IsSound (i ∷ known) w → IsSound known w
IsSound-tail w h = record { unique = h.unique; rows = h.rows; handed = h.handed; shown = h.shown.1 }

pub IsSound-drop : {known : List String} (w : World) → IsSound known w → IsSound [] w
IsSound-drop w h = record { unique = h.unique; rows = h.rows; handed = h.handed; shown = tt }
