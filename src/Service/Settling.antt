-- ===== src/Service/Settling.antt =====
-- The two ends of `submit_transfer`, a rejection and an approval, when the database answers.
use solana_compliance_relaye.Prelude.{ℕ, suc, ◌≡◌, refl, ◌∙◌, Option, none, some, String}
use solana_compliance_relaye.Domain.Status.{BlockchainStatus, ComplianceStatus}
use solana_compliance_relaye.Domain.Transfer.{TransferRequest}
use solana_compliance_relaye.Runtime.{Env, World, ok, pure, ok_or, bind-ok}
use solana_compliance_relaye.Database.Table.{find, modify}
use solana_compliance_relaye.Database.Transfers.{
  set_blockchain, set_compliance, get_transfer_request, update_blockchain_status,
  update_compliance_status,
}
use solana_compliance_relaye.Database.Effects.{
  find-modify_self, get_transfer_request_up, update_blockchain_status_up,
  update_compliance_status_up,
}
use solana_compliance_relaye.Service.Submit.{reject_transfer, approve}

module _ (env : Env) (up : (n : ℕ) → env.fault n ≡ none) where
  -- The row after a rejection.
  abbrev pub rejected_row : String → ℕ → TransferRequest → TransferRequest
  rejected_row reason t r =
      set_blockchain BlockchainStatus.failed none (some reason) none none (env.clock (suc t))
        (set_compliance ComplianceStatus.rejected (env.clock t) r)

  abbrev pub compliance_world : String → ComplianceStatus → World → World
  compliance_world i status w = record w {
    transfers = modify i (set_compliance status (env.clock w.tick)) w.transfers;
    tick = suc w.tick;
  }

  abbrev pub blockchain_world : String → BlockchainStatus → Option String → World → World
  blockchain_world i status error w = record w {
    transfers =
        modify i (set_blockchain status none error none none (env.clock w.tick)) w.transfers;
    tick = suc w.tick;
  }

  -- The world after a rejection.
  abbrev pub rejected_world : String → String → World → World
  rejected_world i reason w =
      let v =
        blockchain_world i BlockchainStatus.failed (some reason)
          (compliance_world i ComplianceStatus.rejected w) in
      record v { tick = suc v.tick }

  pub rejected_world_found :
      (i reason : String) (w : World) {r : TransferRequest}
      → find i w.transfers ≡ some r
      → find i (rejected_world i reason w).transfers ≡ some (rejected_row reason w.tick r)
  rejected_world_found i reason w found =
      find-modify_self i _ _ (λ r. refl) (find-modify_self i _ w.transfers (λ r. refl) found)

  pub reject_transfer_up :
      (i reason : String) (w : World) {r : TransferRequest}
      → find i w.transfers ≡ some r
      → reject_transfer env i reason w
        ≡ (ok (rejected_row reason w.tick r), rejected_world i reason w)
  unfolding reject_transfer ok_or
  reject_transfer_up i reason w {r} found =
      bind-ok (update_compliance_status env i ComplianceStatus.rejected) _
        (update_compliance_status_up env i _ w (up _) found)
      ∙ bind-ok
          (update_blockchain_status env i BlockchainStatus.failed none (some reason) none none) _
          (update_blockchain_status_up env i _ _ _ _ _ _ (up _)
            (find-modify_self i _ w.transfers (λ r. refl) found))
      ∙ bind-ok (get_transfer_request env i) _ (get_transfer_request_up env i _ (up _))
      ∙ rw (rejected_world_found i reason w found) refl

  abbrev pub approved_row : TransferRequest → TransferRequest
  approved_row t = record t {
    compliance_status = ComplianceStatus.approved;
    blockchain_status = BlockchainStatus.pending_submission;
  }

  -- The stored row after an approval of a request; the row given back keeps its other fields.
  abbrev pub queued_row : ℕ → TransferRequest → TransferRequest
  queued_row t r =
      set_blockchain BlockchainStatus.pending_submission none none none none (env.clock (suc t))
        (set_compliance ComplianceStatus.approved (env.clock t) r)

  abbrev pub approved_world : String → World → World
  approved_world i w =
      blockchain_world i BlockchainStatus.pending_submission none
        (compliance_world i ComplianceStatus.approved w)

  pub approved_world_found :
      (i : String) (w : World) {r : TransferRequest}
      → find i w.transfers ≡ some r
      → find i (approved_world i w).transfers ≡ some (queued_row w.tick r)
  approved_world_found i w found =
      find-modify_self i _ _ (λ r. refl) (find-modify_self i _ w.transfers (λ r. refl) found)

  pub approve_up :
      (t : TransferRequest) (w : World) {r : TransferRequest}
      → find t.id w.transfers ≡ some r
      → approve env t w ≡ (ok (approved_row t), approved_world t.id w)
  unfolding approve pure
  approve_up t w found =
      bind-ok (update_compliance_status env t.id ComplianceStatus.approved) _
        (update_compliance_status_up env t.id _ w (up _) found)
      ∙ bind-ok
          (update_blockchain_status env t.id BlockchainStatus.pending_submission none none none
            none)
          _
          (update_blockchain_status_up env t.id _ _ _ _ _ _ (up _)
            (find-modify_self t.id _ w.transfers (λ r. refl) found))
