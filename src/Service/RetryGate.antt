-- ===== src/Service/RetryGate.antt =====
-- The guards of the manual retry of src/app/service.rs.
use solana_compliance_relaye.Prelude.{
  suc, ◌≡◌, refl, ap, ◌⊎◌, inl, inr, Bool, true, false, Option, none, some, List, String,
  Option-cases, is_some, arith,
}
use solana_compliance_relaye.Domain.Status.{
  ComplianceStatus, is_rejected, is_pending_submission, is_failed,
}
use solana_compliance_relaye.Domain.Transfer.{TransferRequest}
use solana_compliance_relaye.Runtime.{Env, World, ◌>>=◌}
use solana_compliance_relaye.Runtime.Keeps.{Keeps, IsQuiet, keeps_rules, Keeps-pure}
use solana_compliance_relaye.Runtime.Fails.{IsErr, Fails, Fails-left, Fails-right}
use solana_compliance_relaye.Database.Table.{find}
use solana_compliance_relaye.Database.Statement.{statement, Keeps-statement}
use solana_compliance_relaye.Database.Transfers.{
  get_transfer_request, update_compliance_status, update_row,
}
use solana_compliance_relaye.Blocklist.{check_in, check_address}
use solana_compliance_relaye.Service.Retry.{
  was_blocklist_rejection, clear_rejection, check_rejection, check_blocklist, check_status,
  refuse_listed, retry_found, retry_blockchain_submission,
}

-- The record of submissions and the blocklist are as given.
pub record Frozen (log : List TransferRequest) (store : Option (List (String × String))) (w : World)
    : Type 0 where
  pub same_log : w.submissions ≡ log
  pub same_store : w.blocklist ≡ store

module _ {log : List TransferRequest} {store : Option (List (String × String))} (env : Env) where
  Frozen-quiet : IsQuiet (Frozen log store)
  Frozen-quiet w n h = record { same_log = h.same_log; same_store = h.same_store }

  update_compliance-Frozen :
      (i : String) (status : ComplianceStatus)
      → Keeps (Frozen log store) (update_compliance_status env i status)
  unfolding update_compliance_status
  update_compliance-Frozen i status =
      Keeps-statement env _ _ Frozen-quiet λ now w h. go _ (find i w.transfers) w h
    where
      go :
          (f : TransferRequest → TransferRequest) (o : Option TransferRequest) (w : World)
          → Frozen log store w
          → Frozen log store (update_row i f o w).1
      go f none w h = h
      go f (some r) w h = record { same_log = h.same_log; same_store = h.same_store }

  clear_rejection-Frozen :
      (i : String) (r : TransferRequest) (a b : Bool)
      → Keeps (Frozen log store) (clear_rejection env i r a b)
  unfolding clear_rejection
  clear_rejection-Frozen i r true true = search keeps_rules
  clear_rejection-Frozen i r true false = update_compliance-Frozen i _
  clear_rejection-Frozen i r false b = search keeps_rules

  check_rejection-Frozen :
      (i : String) (r : TransferRequest) → Keeps (Frozen log store) (check_rejection env i r)
  unfolding check_rejection
  check_rejection-Frozen i r = search (keeps_rules, clear_rejection-Frozen)

  refuse_listed-Frozen :
      (field who : String) (o : Option String)
      → Keeps (Frozen log store) (refuse_listed env field who o)
  unfolding refuse_listed
  refuse_listed-Frozen field who none = Keeps-pure tt
  refuse_listed-Frozen field who (some e) = search keeps_rules

  check_blocklist-Frozen : (r : TransferRequest) → Keeps (Frozen log store) (check_blocklist env r)
  unfolding check_blocklist
  check_blocklist-Frozen r = search (keeps_rules, refuse_listed-Frozen)

-- A request that is neither pending submission nor failed is refused.
pub check_status-Fails :
    {P : World → Type 0} (env : Env) (r : TransferRequest)
    → is_pending_submission r.blockchain_status ≡ false
    → is_failed r.blockchain_status ≡ false
    → Fails P (check_status env r)
unfolding check_status
check_status-Fails env r a b = record { at = λ w h. simp (a, b) (tt, h) }

-- The recipient or the sender is on the blocklist.
abbrev pub IsListed : Option (List (String × String)) → TransferRequest → Type 0
IsListed store r =
    (is_some (check_in store r.to_address) ≡ true)
    ⊎ (is_some (check_in store r.from_address) ≡ true)

-- The requests that the manual retry refuses: an address is listed, compliance rejected it for
-- another reason than the blocklist, or it is neither pending submission nor failed.
abbrev pub MayNotRetry : Option (List (String × String)) → TransferRequest → Type 0
MayNotRetry store r =
    IsListed store r
    ⊎ ((is_rejected r.compliance_status ≡ true)
        × (was_blocklist_rejection r.blockchain_last_error ≡ false))
    ⊎ ((is_pending_submission r.blockchain_status ≡ false)
        × (is_failed r.blockchain_status ≡ false))

module _ {log : List TransferRequest} {store : Option (List (String × String))} (env : Env) where
  not-IsListed :
      (r : TransferRequest) (w : World)
      → Frozen log store w
      → check_in w.blocklist r.to_address ≡ none
      → check_in w.blocklist r.from_address ≡ none
      → ¬ IsListed store r
  not-IsListed r w h e f listed = ground (
    arith,
    ap (λ b. check_in b r.to_address) h.same_store,
    ap (λ b. check_in b r.from_address) h.same_store,
  )

  check_blocklist-Fails :
      (r : TransferRequest) → IsListed store r → Fails (Frozen log store) (check_blocklist env r)
  unfolding check_blocklist check_address refuse_listed ◌>>=◌
  check_blocklist-Fails r listed = record {
    at = λ w h. elim (Option-cases (check_in w.blocklist r.to_address)) [
      | inr (x, e) ↦ rw e (tt, h)
      | inl e ↦ elim (Option-cases (check_in w.blocklist r.from_address)) [
        | inr (y, f) ↦ rw (e, f) (tt, h)
        | inl f ↦ absurd (not-IsListed r w h e f listed)
      ]
    ];
  }

  check_rejection-Fails :
      (i : String) (r : TransferRequest)
      → is_rejected r.compliance_status ≡ true
      → was_blocklist_rejection r.blockchain_last_error ≡ false
      → Fails (Frozen log store) (check_rejection env i r)
  unfolding check_rejection ◌>>=◌ clear_rejection
  check_rejection-Fails i r rejected other = record { at = λ w h. simp (rejected, other) (tt, h) }

  retry_found-Fails :
      (i : String) (r : TransferRequest)
      → MayNotRetry store r
      → Fails (Frozen log store) (retry_found env i r)
  unfolding retry_found
  retry_found-Fails i r (inl listed) =
      Fails-right (check_rejection-Frozen env i r)
        (λ _. Fails-left _ (check_blocklist-Fails r listed))
  retry_found-Fails i r (inr (inl (rejected, other))) =
      Fails-left _ (check_rejection-Fails i r rejected other)
  retry_found-Fails i r (inr (inr (a, b))) = Fails-right (check_rejection-Frozen env i r) (λ _.
      Fails-right (check_blocklist-Frozen env r) (λ _. Fails-left _ (check_status-Fails env r a b)))

-- A stored request with a listed address, or rejected by compliance for another reason than the
-- blocklist, or neither pending submission nor failed, is refused by the manual retry with an
-- error, and nothing is submitted, whatever the database and the blockchain client answer.
pub retry_refuses :
    (env : Env) (i : String) (r : TransferRequest) (w : World)
    → find i w.transfers ≡ some r
    → MayNotRetry w.blocklist r
    → IsErr (retry_blockchain_submission env i w).0
      × ((retry_blockchain_submission env i w).1.submissions ≡ w.submissions)
unfolding retry_blockchain_submission get_transfer_request statement ◌>>=◌
retry_refuses env i r w found no_retry = elim (Option-cases (env.fault w.tick)) [
  | inr (x, e) ↦ rw e (tt, refl)
  | inl e ↦ rw (e, found) (refused (record w { tick = suc w.tick }) refl refl)
]
  where
    refused :
        (v : World)
        → v.submissions ≡ w.submissions
        → v.blocklist ≡ w.blocklist
        → IsErr (retry_found env i r v).0 × ((retry_found env i r v).1.submissions ≡ w.submissions)
    refused v l b =
        let f =
          (retry_found-Fails {log = w.submissions} env i r no_retry).at v
            (record { same_log = l; same_store = b }) in
        (f.0, f.1.same_log)
