-- ===== src/Service/Submit.antt =====
-- `AppService::submit_transfer` and `reject_transfer`: receive, persist, then screen.
use solana_compliance_relaye.Prelude.{
  Bool, true, false, Option, none, some, String, ◌+++◌, List, or_else,
}
use solana_compliance_relaye.Domain.Status.{BlockchainStatus, ComplianceStatus, is_rejected}
use solana_compliance_relaye.Domain.Transfer.{TransferRequest, SubmitTransferRequest}
use solana_compliance_relaye.Domain.Request.{validate, verify_signature}
use solana_compliance_relaye.Runtime.{
  Env, World, Action, pure, lift, gets, ask_result, ok_or, attempt, ◌>>=◌, ◌>>◌, not_found,
}
use solana_compliance_relaye.Database.Transfers.{
  get_transfer_request, insert_transfer_request, update_blockchain_status, update_compliance_status,
  find_by_nonce,
}
use solana_compliance_relaye.Blocklist.{check_in, check_address, add_address}

abbrev pub range_rejection : String
range_rejection = "Range Protocol: High-risk address detected (CRITICAL RISK)"

-- The recipient is looked up first.
unfoldable pub blocklist_hit : String → String → World → Option String
unfolding check_address
blocklist_hit to_address from_address w =
    or_else (check_address to_address w) (check_address from_address w)

-- Whether there is a blocklist and it does not hold the address.
abbrev pub is_unlisted : Option (List (String × String)) → String → Bool
is_unlisted none address = false
is_unlisted (some store) address = elim (check_in (some store) address) [
  | none ↦ true
  | some _ ↦ false
]

module _ (env : Env) where
  unfoldable pub reject_transfer : String → String → Action TransferRequest
  unfolding ◌>>=◌
  reject_transfer i reason = do
    update_compliance_status env i ComplianceStatus.rejected
    update_blockchain_status env i BlockchainStatus.failed none (some reason) none none
    t ← get_transfer_request env i
    ok_or (not_found i) t

  -- A failure to store the address is dropped.
  unfoldable pub auto_block : Bool → String → Action (Unit {0})
  unfolding ◌>>=◌
  auto_block false address = pure tt
  auto_block true address = do
    done ← attempt (add_address env address "Auto-blocked: Range Protocol CRITICAL RISK")
    pure tt

  -- Approve, queue for the worker, and give back the row as it now stands.
  unfoldable pub approve : TransferRequest → Action TransferRequest
  unfolding ◌>>=◌
  approve t = do
    update_compliance_status env t.id ComplianceStatus.approved
    update_blockchain_status env t.id BlockchainStatus.pending_submission none none none none
    pure (record t {
      compliance_status = ComplianceStatus.approved;
      blockchain_status = BlockchainStatus.pending_submission;
    })

  unfoldable pub decide : SubmitTransferRequest → TransferRequest → Bool → Action TransferRequest
  unfolding ◌>>=◌
  decide request t true = do
    unlisted ← gets (λ w. is_unlisted w.blocklist request.to_address)
    auto_block unlisted request.to_address
    reject_transfer t.id range_rejection
  decide request t false = approve t

  -- Step 3: the internal blocklist, then the compliance provider.
  unfoldable pub screen :
      SubmitTransferRequest → TransferRequest → Option String → Action TransferRequest
  unfolding ◌>>=◌
  screen request t (some reason) = reject_transfer t.id ("Blocklist: " +++ reason)
  screen request t none = do
    status ← ask_result (λ n. env.check_compliance n request)
    decide request t (is_rejected status)

  -- Step 2: an existing request of this sender and nonce is given back; a new one is stored first.
  unfoldable pub persist : SubmitTransferRequest → Option TransferRequest → Action TransferRequest
  unfolding ◌>>=◌
  persist request (some existing) = pure existing
  persist request none = do
    t ← insert_transfer_request env request
    hit ← gets (blocklist_hit request.to_address request.from_address)
    screen request t hit

  unfoldable pub submit_transfer : SubmitTransferRequest → Action TransferRequest
  unfolding ◌>>=◌
  submit_transfer request = do
    lift (validate env request)
    lift (verify_signature env request)
    existing ← find_by_nonce env request.from_address request.nonce
    persist request existing
