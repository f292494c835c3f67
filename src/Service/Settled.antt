-- ===== src/Service/Settled.antt =====
-- Webhook events of src/app/service.rs that have nothing left to change.
use solana_compliance_relaye.Prelude.{
  ℕ, ◌≡◌, refl, Bool, true, false, Option, none, some, List, [], ◌∷◌, String, str_eq, if◌then◌else◌,
}
use solana_compliance_relaye.Domain.Status.{is_submitted}
use solana_compliance_relaye.Domain.Transfer.{TransferRequest}
use solana_compliance_relaye.Runtime.{World}
use solana_compliance_relaye.Runtime.Keeps.{IsQuiet}
use solana_compliance_relaye.Database.Table.{find_where, modify, opt_map}
use solana_compliance_relaye.Database.Transfers.{has_signature, set_blockchain}
use solana_compliance_relaye.Service.Webhook.{Notice, verdict}

-- A test that an update does not change finds the same row, updated.
pub find_where-modify :
    (p : TransferRequest → Bool) (i : String) (f : TransferRequest → TransferRequest)
    (rs : List TransferRequest)
    → ((r : TransferRequest) → p (f r) ≡ p r)
    → find_where p (modify i f rs)
      ≡ opt_map (λ r. if str_eq r.id i then f r else r) (find_where p rs)
unfolding modify
find_where-modify p i f [] same = refl
find_where-modify p i f (r ∷ rs) same =
    by_tests (str_eq r.id i) refl (p r) refl (find_where-modify p i f rs same)
  where
    after : TransferRequest → TransferRequest
    after x = if str_eq x.id i then f x else x

    by_tests :
        (b : Bool)
        → str_eq r.id i ≡ b
        → (c : Bool) → p r ≡ c
        → find_where p (modify i f rs) ≡ opt_map after (find_where p rs)
        → (if p (if b then f r else r)
            then some (if b then f r else r)
            else find_where p (modify i f rs))
          ≡ opt_map after (if c then some r else find_where p rs)
    by_tests true e true d h = rw (same r, d) (rw e refl)
    by_tests true e false d h = rw (same r, d) h
    by_tests false e true d h = rw d (rw e refl)
    by_tests false e false d h = rw d h

-- No row is submitted: none at all, or one that is not.
abbrev pub IsDone : Option TransferRequest → Type 0
IsDone none = Unit
IsDone (some q) = is_submitted q.blockchain_status ≡ false

-- The event of a notice has nothing left to change.
pub record IsSettled (n : Notice) (w : World) : Type 0 where
  pub done : IsDone (find_where (has_signature n.signature) w.transfers)

pub IsSettled-quiet : (n : Notice) → IsQuiet (IsSettled n)
IsSettled-quiet n w t h = record { done = h.done }

pub verdict_not_submitted : (b : Bool) (e : Option String) → is_submitted (verdict b e).0 ≡ false
verdict_not_submitted true e = refl
verdict_not_submitted false e = refl

-- The row of an event after it is handled.
abbrev pub marked : Notice → ℕ → TransferRequest → TransferRequest
marked m now =
    set_blockchain (verdict m.success m.error).0 none (verdict m.success m.error).1 none none now

module _ (n m : Notice) (now : ℕ) where
  -- A marked table keeps what is done.
  pub IsDone-modify :
      (i : String) (rs : List TransferRequest)
      → IsDone (find_where (has_signature n.signature) rs)
      → IsDone (find_where (has_signature n.signature) (modify i (marked m now) rs))
  IsDone-modify i rs h =
      rw (find_where-modify (has_signature n.signature) i (marked m now) rs (λ r. refl))
        (by_row (find_where (has_signature n.signature) rs) h)
    where
      by_test :
          (q : TransferRequest) (b : Bool)
          → is_submitted q.blockchain_status ≡ false
          → is_submitted (if b then marked m now q else q).blockchain_status ≡ false
      by_test q true h = verdict_not_submitted m.success m.error
      by_test q false h = h

      by_row :
          (o : Option TransferRequest)
          → IsDone o
          → IsDone (opt_map (λ r. if str_eq r.id i then marked m now r else r) o)
      by_row none h = tt
      by_row (some q) h = by_test q (str_eq q.id i) h
