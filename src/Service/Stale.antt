-- ===== src/Service/Stale.antt =====
-- What the crank of src/app/service.rs makes of a submitted transaction of which no webhook told.
use solana_compliance_relaye.Prelude.{
  ℕ, suc, ◌≡◌, refl, Bool, true, false, Option, none, some, String,
}
use solana_compliance_relaye.Domain.Status.{BlockchainStatus, TransactionStatus}
use solana_compliance_relaye.Domain.Transfer.{TransferRequest}
use solana_compliance_relaye.Runtime.{Env, World, Result, ok, err, pure, ask, ◌>>=◌}
use solana_compliance_relaye.Database.Table.{find}
use solana_compliance_relaye.Database.Transfers.{set_blockchain, update_blockchain_status}
use solana_compliance_relaye.Database.Effects.{find-modify_self, update_blockchain_status_up}
use solana_compliance_relaye.Service.Dispatch.{get_signature_status, is_blockhash_valid}
use solana_compliance_relaye.Service.Crank.{
  on_stale_blockhash, handle_not_found_transaction, on_stale_status, check_stale_signature,
  check_stale_transaction_status,
}

-- What the chain's answers prove of a transaction: nothing is concluded from an error, and an
-- unknown transaction has expired only if its blockhash is known to be invalid.
unfoldable pub verdict_of :
    BlockchainStatus
    → Result (Option TransactionStatus)
    → Option String
    → (String → Result Bool)
    → BlockchainStatus
verdict_of s (ok (some TransactionStatus.confirmed)) hash valid = BlockchainStatus.confirmed
verdict_of s (ok (some TransactionStatus.finalized)) hash valid = BlockchainStatus.confirmed
verdict_of s (ok (some (TransactionStatus.failed _))) hash valid = BlockchainStatus.failed
verdict_of s (ok none) none valid = s
verdict_of s (ok none) (some h) valid = elim (valid h) [
  | ok b ↦ elim b [ true ↦ s | false ↦ BlockchainStatus.expired ]
  | err _ ↦ s
]
verdict_of s (err _) hash valid = s

-- The row under the key of a request has a status.
abbrev pub HasStatus : String → BlockchainStatus → World → Type 0
HasStatus i s w = (q : TransferRequest) × (find i w.transfers ≡ some q) × (q.blockchain_status ≡ s)

module _ (env : Env) (up : (n : ℕ) → env.fault n ≡ none) (r : TransferRequest) where
  updated :
      (s : BlockchainStatus) (sig error : Option String) (hash : Option String) (w : World)
      → find r.id w.transfers ≡ some r
      → HasStatus r.id s (update_blockchain_status env r.id s sig error none hash w).1
  updated s sig error hash w found =
      rw (update_blockchain_status_up env r.id s sig error none hash w (up w.tick) found) (
        set_blockchain s sig error none hash (env.clock w.tick) r,
        find-modify_self r.id _ w.transfers (λ x. refl) found,
        refl,
      )

  not_found_verdict :
      (sig : String) (hash : Option String) (w : World)
      → find r.id w.transfers ≡ some r
      → HasStatus r.id
          (verdict_of r.blockchain_status (ok none) hash (env.is_blockhash_valid w.tick))
          (handle_not_found_transaction env r sig hash w).1
  unfolding handle_not_found_transaction pure verdict_of is_blockhash_valid ask ◌>>=◌
  not_found_verdict sig none w found = (r, found, refl)
  not_found_verdict sig (some h) w found = by_answer (env.is_blockhash_valid w.tick h)
    where
      by_answer :
          (a : Result Bool)
          → HasStatus r.id
              (elim a [
                | ok b ↦ elim b [ true ↦ r.blockchain_status | false ↦ BlockchainStatus.expired ]
                | err _ ↦ r.blockchain_status
              ])
              (on_stale_blockhash env r sig h a (record w { tick = suc w.tick })).1
      by_answer (ok true) = (r, found, refl)
      by_answer (ok false) =
          updated BlockchainStatus.expired _ _ _ (record w { tick = suc w.tick }) found
      by_answer (err _) = (r, found, refl)

  status_verdict :
      (sig : String) (a : Result (Option TransactionStatus)) (w : World)
      → find r.id w.transfers ≡ some r
      → HasStatus r.id
          (verdict_of r.blockchain_status a r.blockhash_used (env.is_blockhash_valid w.tick))
          (on_stale_status env r sig a w).1
  unfolding on_stale_status verdict_of pure
  status_verdict sig (ok (some TransactionStatus.confirmed)) w found = updated _ _ _ _ w found
  status_verdict sig (ok (some TransactionStatus.finalized)) w found = updated _ _ _ _ w found
  status_verdict sig (ok (some (TransactionStatus.failed e))) w found = updated _ _ _ _ w found
  status_verdict sig (ok none) w found = not_found_verdict sig r.blockhash_used w found
  status_verdict sig (err e) w found = (r, found, refl)

-- The crank leaves a stored transaction with a signature, when the database answers, with the
-- status that the chain's answers prove: confirmed for a status of confirmed or of finalized
-- commitment, so that finality is not waited for; failed for a failure; expired only if the chain does
-- not know it and its blockhash is known to be invalid; and otherwise what it was.
pub crank_verdict :
    (env : Env) (r : TransferRequest) (sig : String) (w : World)
    → ((n : ℕ) → env.fault n ≡ none)
    → find r.id w.transfers ≡ some r
    → r.blockchain_signature ≡ some sig
    → HasStatus r.id
        (verdict_of r.blockchain_status
          (env.get_signature_status w.tick sig)
          r.blockhash_used
          (env.is_blockhash_valid (suc w.tick)))
        (check_stale_transaction_status env r w).1
unfolding check_stale_transaction_status check_stale_signature get_signature_status ask ◌>>=◌
crank_verdict env r sig w up found signed = simp signed (
    status_verdict env up r sig (env.get_signature_status w.tick sig)
      (record w { tick = suc w.tick }) found)
