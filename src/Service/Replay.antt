-- ===== src/Service/Replay.antt =====
-- What `submit_transfer` of src/app/service.rs does with requests that are not new: one that is not
-- authentic, one that is known, and one under the nonce of another sender.
use solana_compliance_relaye.Prelude.{ℕ, suc, ◌≡◌, refl, ◌∙◌, ◌⊎◌, inl, inr, none, some}
use solana_compliance_relaye.Domain.Status.{BlockchainStatus, ComplianceStatus}
use solana_compliance_relaye.Domain.Transfer.{TransferRequest, SubmitTransferRequest}
use solana_compliance_relaye.Domain.Request.{validate, verify_signature}
use solana_compliance_relaye.Runtime.{
  Env, World, Result, ok, err, Action, continue, pure, lift, gets, ask_result, ◌>>=◌, ◌>>◌,
}
use solana_compliance_relaye.Runtime.Fails.{IsErr}
use solana_compliance_relaye.Database.Table.{find, find_where}
use solana_compliance_relaye.Database.Transfers.{has_nonce, has_sender_nonce, find_by_nonce}
use solana_compliance_relaye.Database.Effects.{find_by_nonce_up, insert_transfer_request_existing}
use solana_compliance_relaye.Service.Settling.{queued_row, approved_world_found, approve_up}
use solana_compliance_relaye.Service.Submit.{
  blocklist_hit, decide, screen, persist, submit_transfer,
}
use solana_compliance_relaye.Service.Intake.{checked}

-- A request that fails validation, or whose signature does not verify, is refused with an error and
-- changes nothing, not even the count of effects.
pub submit_transfer_refuses :
    (env : Env) (request : SubmitTransferRequest) (w : World)
    → IsErr (validate env request) ⊎ IsErr (verify_signature env request)
    → IsErr (submit_transfer env request w).0 × ((submit_transfer env request w).1 ≡ w)
unfolding submit_transfer lift ◌>>=◌ continue
submit_transfer_refuses env request w bad =
    by_answers (validate env request) (verify_signature env request) bad
  where
    rest : Action TransferRequest
    rest = find_by_nonce env request.from_address request.nonce >>= λ existing.
        persist env request existing

    by_answers :
        (a b : Result (Unit {0}))
        → IsErr a ⊎ IsErr b
        → let f = lift a >> (lift b >> rest) in IsErr (f w).0 × ((f w).1 ≡ w)
    by_answers (err e) b bad = (tt, refl)
    by_answers (ok _) (err e) bad = (tt, refl)
    by_answers (ok _) (ok _) (inl h) = absurd h
    by_answers (ok _) (ok _) (inr h) = absurd h

-- A valid, signed request whose sender and nonce are known, when the lookup is answered, gives back
-- the stored row, and changes nothing but the count of effects: no second row, no second screening.
pub submit_transfer_known :
    (env : Env) (request : SubmitTransferRequest) (r : TransferRequest) (w : World)
    → env.fault w.tick ≡ none
    → validate env request ≡ ok tt
    → verify_signature env request ≡ ok tt
    → find_where (has_sender_nonce request.from_address request.nonce) w.transfers ≡ some r
    → submit_transfer env request w ≡ (ok r, record w { tick = suc w.tick })
unfolding persist pure
submit_transfer_known env request r w up valid signed known =
    checked env request w valid signed (some r)
      (find_by_nonce_up env request.from_address request.nonce w up ∙ rw known refl)

-- A valid, signed request under a nonce that its sender has not used but another row has: when its
-- own addresses are unlisted, the provider approves it and the database answers, the other row is
-- approved and queued for submission, whatever its status was.
pub nonce_takeover :
    (env : Env) (request : SubmitTransferRequest) (r : TransferRequest) (w : World)
    → ((n : ℕ) → env.fault n ≡ none)
    → validate env request ≡ ok tt
    → verify_signature env request ≡ ok tt
    → find_where (has_sender_nonce request.from_address request.nonce) w.transfers ≡ none
    → find_where (has_nonce request.nonce) w.transfers ≡ some r
    → find r.id w.transfers ≡ some r
    → blocklist_hit request.to_address request.from_address w ≡ none
    → env.check_compliance (suc (suc w.tick)) request ≡ ok ComplianceStatus.approved
    → (q : TransferRequest) × (find r.id (submit_transfer env request w).1.transfers ≡ some q)
      × (q.compliance_status ≡ ComplianceStatus.approved)
      × (q.blockchain_status ≡ BlockchainStatus.pending_submission)
unfolding persist gets ◌>>=◌ screen ask_result decide blocklist_hit
nonce_takeover env request r w up valid signed unknown taken found unlisted approves =
    rw
      (checked env request w valid signed none
        (find_by_nonce_up env request.from_address request.nonce w (up _) ∙ rw unknown refl))
      (rw
        (insert_transfer_request_existing env request (record w { tick = suc w.tick }) (up _) taken)
        (rw (unlisted, approves)
          (rw (approve_up env up r v found)
            (queued_row env up v.tick r, approved_world_found env up r.id v found, refl, refl))))
  where
    v : World
    v = record w { tick = suc (suc (suc w.tick)) }
