-- ===== src/System/Handlers.antt =====
-- The intake of src/app/service.rs and the statements of src/infra/blocklist/mod.rs keep the tables
-- sound.
use solana_compliance_relaye.Prelude.{refl, Bool, true, false, Option, none, some, List, String}
use solana_compliance_relaye.Domain.Status.{ComplianceStatus}
use solana_compliance_relaye.Domain.Transfer.{TransferRequest, SubmitTransferRequest}
use solana_compliance_relaye.Runtime.{Env}
use solana_compliance_relaye.Runtime.Keeps.{Keeps, keeps_rules, Keeps-bind, Keeps-pure}
use solana_compliance_relaye.Database.Statement.{Keeps-statement}
use solana_compliance_relaye.Database.Gives.{Gives-then}
use solana_compliance_relaye.Database.Transfers.{get_transfer_request, find_by_nonce}
use solana_compliance_relaye.Blocklist.{load_from_database, add_address, remove_address}
use solana_compliance_relaye.Service.Submit.{
  reject_transfer, auto_block, approve, decide, screen, persist, submit_transfer,
}
use solana_compliance_relaye.System.Screened.{IsSound, IsSound-quiet, IsSound-tail}
use solana_compliance_relaye.System.Statements.{
  update_blockchain_status-IsSound, update_compliance_status-Gives, insert_transfer_request-IsSound,
}

module _ {known : List String} (env : Env) where
  pub get_transfer_request-IsSound :
      (i : String) → Keeps (IsSound known) (get_transfer_request env i)
  unfolding get_transfer_request
  get_transfer_request-IsSound i = Keeps-statement env _ _ (IsSound-quiet known) λ now w h. h

  pub find_by_nonce-IsSound : (a n : String) → Keeps (IsSound known) (find_by_nonce env a n)
  unfolding find_by_nonce
  find_by_nonce-IsSound a n = Keeps-statement env _ _ (IsSound-quiet known) λ now w h. h

  pub add_address-IsSound : (a reason : String) → Keeps (IsSound known) (add_address env a reason)
  unfolding add_address
  add_address-IsSound a reason =
      Keeps-statement env _ _ (IsSound-quiet known)
        λ now w h. record { unique = h.unique; rows = h.rows; handed = h.handed; shown = h.shown }

  pub remove_address-IsSound : (a : String) → Keeps (IsSound known) (remove_address env a)
  unfolding remove_address
  remove_address-IsSound a =
      Keeps-statement env _ _ (IsSound-quiet known)
        λ now w h. record { unique = h.unique; rows = h.rows; handed = h.handed; shown = h.shown }

  pub load_from_database-IsSound : Keeps (IsSound known) (load_from_database env)
  unfolding load_from_database
  load_from_database-IsSound =
      Keeps-statement env _ _ (IsSound-quiet known)
        λ now w h. record { unique = h.unique; rows = h.rows; handed = h.handed; shown = h.shown }

  auto_block-IsSound : (b : Bool) (a : String) → Keeps (IsSound known) (auto_block env b a)
  unfolding auto_block
  auto_block-IsSound false a = Keeps-pure tt
  auto_block-IsSound true a = search (keeps_rules, add_address-IsSound)

module _ {known : List String} (env : Env) where
  -- A verdict, then the status that goes with it.
  reject_transfer-IsSound :
      (i reason : String) → Keeps (IsSound known) (reject_transfer env i reason)
  unfolding reject_transfer
  reject_transfer-IsSound i reason =
      Gives-then (update_compliance_status-Gives env i ComplianceStatus.rejected refl)
        (λ _.
          Keeps-bind (update_blockchain_status-IsSound env i _ _ _ _ _ (λ rows h. h.0))
            (λ _. search (keeps_rules, get_transfer_request-IsSound)))
        (λ _ v h. IsSound-tail v h)

  approve-IsSound : (t : TransferRequest) → Keeps (IsSound known) (approve env t)
  unfolding approve
  approve-IsSound t =
      Gives-then (update_compliance_status-Gives env t.id ComplianceStatus.approved refl)
        (λ _.
          Keeps-bind (update_blockchain_status-IsSound env t.id _ _ _ _ _ (λ rows h. h.0))
            (λ _. Keeps-pure _))
        (λ _ v h. IsSound-tail v h)

  decide-IsSound :
      (request : SubmitTransferRequest) (t : TransferRequest) (b : Bool)
      → Keeps (IsSound known) (decide env request t b)
  unfolding decide
  decide-IsSound request t true = search (keeps_rules, auto_block-IsSound, reject_transfer-IsSound)
  decide-IsSound request t false = approve-IsSound t

  screen-IsSound :
      (request : SubmitTransferRequest) (t : TransferRequest) (hit : Option String)
      → Keeps (IsSound known) (screen env request t hit)
  unfolding screen
  screen-IsSound request t (some reason) = reject_transfer-IsSound t.id _
  screen-IsSound request t none = search (keeps_rules, IsSound-quiet, decide-IsSound)

  persist-IsSound :
      (request : SubmitTransferRequest) (o : Option TransferRequest)
      → Keeps (IsSound known) (persist env request o)
  unfolding persist
  persist-IsSound request (some t) = Keeps-pure t
  persist-IsSound request none =
      search (keeps_rules, insert_transfer_request-IsSound, screen-IsSound)

  pub submit_transfer-IsSound :
      (request : SubmitTransferRequest) → Keeps (IsSound known) (submit_transfer env request)
  unfolding submit_transfer
  submit_transfer-IsSound request = search (keeps_rules, find_by_nonce-IsSound, persist-IsSound)
