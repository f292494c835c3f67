-- ===== src/Database/Table.antt =====
-- Rows of `transfer_requests`: a lookup by primary key, an update of one row, and the laws of both.
use solana_compliance_relaye.Prelude.{
  ◌≡◌, refl, Bool, Option, none, some, List, [], ◌∷◌, String, str_eq, eq_iff, arith, if◌then◌else◌,
  ◌++◌,
}
use solana_compliance_relaye.Domain.Transfer.{TransferRequest}

abbrev pub opt_map {ℓ κ} : {A : Type ℓ} {B : Type κ} → (A → B) → Option A → Option B
opt_map f none = none
opt_map f (some a) = some (f a)

-- The first row that passes a test.
abbrev pub find_where {ℓ} : {A : Type ℓ} → (A → Bool) → List A → Option A
find_where p [] = none
find_where p (r ∷ rs) = if p r then some r else find_where p rs

-- `WHERE id = $1`.
unfoldable pub find : String → List TransferRequest → Option TransferRequest
find i [] = none
find i (r ∷ rs) = if str_eq r.id i then some r else find i rs

unfoldable pub modify :
    String → (TransferRequest → TransferRequest) → List TransferRequest → List TransferRequest
modify i f [] = []
modify i f (r ∷ rs) = (if str_eq r.id i then f r else r) ∷ modify i f rs

abbrev pub KeepsId : (TransferRequest → TransferRequest) → Type 0
KeepsId f = (r : TransferRequest) → (f r).id ≡ r.id

-- What a lookup finds after an update.
pub find-modify :
    (i j : String) (f : TransferRequest → TransferRequest) (rs : List TransferRequest)
    → KeepsId f
    → find j (modify i f rs) ≡ (if str_eq i j then opt_map f (find j rs) else find j rs)
unfolding find modify
find-modify i j f [] k = ground arith
find-modify i j f (r ∷ rs) k = ground (
  arith,
  eq_iff i j,
  eq_iff r.id i,
  eq_iff r.id j,
  eq_iff (f r).id j,
  k r,
  find-modify i j f rs k,
)

-- Primary keys do not repeat.
abbrev pub UniqueIds : List TransferRequest → Type 0
UniqueIds [] = Unit
UniqueIds (r ∷ rs) = (find r.id rs ≡ none) × UniqueIds rs

-- An update keeps primary keys distinct.
pub modify-UniqueIds :
    (i : String) (f : TransferRequest → TransferRequest) (rs : List TransferRequest)
    → KeepsId f
    → UniqueIds rs
    → UniqueIds (modify i f rs)
unfolding modify
modify-UniqueIds i f [] k u = tt
modify-UniqueIds i f (r ∷ rs) k u = ground (
  arith,
  k r,
  modify-UniqueIds i f rs k u.1,
  find-modify i r.id f rs k,
  find-modify i (f r).id f rs k,
)

-- Appending a row under a new key does too.
pub find-append :
    (j : String) (rs : List TransferRequest) (r : TransferRequest)
    → find j (rs ++ r ∷ [])
      ≡ elim (find j rs) [ none ↦ if str_eq r.id j then some r else none | some q ↦ some q ]
unfolding find
find-append j [] r = ground arith
find-append j (q ∷ rs) r = ground (arith, find-append j rs r)

pub append-UniqueIds :
    (rs : List TransferRequest) (r : TransferRequest)
    → find r.id rs ≡ none
    → UniqueIds rs
    → UniqueIds (rs ++ r ∷ [])
unfolding find
append-UniqueIds [] r h u = (refl, tt)
append-UniqueIds (q ∷ rs) r h u =
    ground (arith, eq_iff q.id r.id, eq_iff r.id q.id, find-append q.id rs r, append-UniqueIds rs r)
