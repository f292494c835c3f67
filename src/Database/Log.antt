-- ===== src/Database/Log.antt =====
-- No statement of the database adds to the record of submissions: each keeps whatever is true of it.
use solana_compliance_relaye.Prelude.{
  ℕ, ◌≡◌, Option, none, some, List, String, inl, inr, Bool-cases, ltb,
}
use solana_compliance_relaye.Domain.Status.{
  BlockchainStatus, ComplianceStatus, LastErrorType, CheckoutSessionStatus,
}
use solana_compliance_relaye.Domain.Transfer.{
  TransferRequest, SubmitTransferRequest, CheckoutSession,
}
use solana_compliance_relaye.Runtime.{Env, World, Action}
use solana_compliance_relaye.Runtime.Keeps.{Keeps, IsQuiet}
use solana_compliance_relaye.Database.Statement.{Keeps-statement}
use solana_compliance_relaye.Database.Transfers.{
  get_transfer_request, insert_transfer_request, update_blockchain_status, update_compliance_status,
  increment_retry_count, get_transfer_by_signature, find_by_nonce, update_jito_tracking,
  insert_transfer, update_row, bump_row, max_i32,
}
use solana_compliance_relaye.Database.Table.{find}
use solana_compliance_relaye.Blocklist.{add_address}
use solana_compliance_relaye.Database.Queue.{
  get_pending_blockchain_requests, get_stale_submitted_transactions,
}
use solana_compliance_relaye.Database.Sessions.{
  select_checkout_session, link_checkout_session_transfer, link_session,
}

-- A statement about the record of submissions.
pub record OnLog (Q : List TransferRequest → Type 0) (w : World) : Type 0 where
  pub log : Q w.submissions

pub OnLog-quiet : {Q : List TransferRequest → Type 0} → IsQuiet (OnLog Q)
OnLog-quiet w n h = record { log = h.log }

-- An action that keeps every statement leaves the record as it is.
pub fixed {ℓ} :
    {A : Type ℓ} {m : Action A} {l : List TransferRequest}
    → Keeps (OnLog (λ x. x ≡ l)) m
    → (w : World) → w.submissions ≡ l
    → (m w).1.submissions ≡ l
fixed k w e = (k.at w (record { log = e })).log

module _ {Q : List TransferRequest → Type 0} (env : Env) where
  pub get_transfer_request-OnLog : (i : String) → Keeps (OnLog Q) (get_transfer_request env i)
  unfolding get_transfer_request
  get_transfer_request-OnLog i = Keeps-statement env _ _ OnLog-quiet λ now w h. h

  insert_transfer-OnLog :
      (request : SubmitTransferRequest) (i : String) (now : ℕ)
      (existing taken : Option TransferRequest) (w : World)
      → OnLog Q w
      → OnLog Q (insert_transfer env request i now existing taken w).1
  unfolding insert_transfer
  insert_transfer-OnLog request i now (some x) taken w h = h
  insert_transfer-OnLog request i now none (some x) w h = h
  insert_transfer-OnLog request i now none none w h = record { log = h.log }

  pub insert_transfer_request-OnLog :
      (request : SubmitTransferRequest) → Keeps (OnLog Q) (insert_transfer_request env request)
  unfolding insert_transfer_request
  insert_transfer_request-OnLog request =
      Keeps-statement env _ _ OnLog-quiet λ now w h. insert_transfer-OnLog request _ now _ _ w h

  update_row-OnLog :
      (i : String) (f : TransferRequest → TransferRequest) (o : Option TransferRequest) (w : World)
      → OnLog Q w
      → OnLog Q (update_row i f o w).1
  update_row-OnLog i f none w h = h
  update_row-OnLog i f (some x) w h = record { log = h.log }

  pub update_blockchain_status-OnLog :
      (i : String) (status : BlockchainStatus) (sig error : Option String) (next : Option ℕ)
      (hash : Option String)
      → Keeps (OnLog Q) (update_blockchain_status env i status sig error next hash)
  unfolding update_blockchain_status
  update_blockchain_status-OnLog i status sig error next hash =
      Keeps-statement env _ _ OnLog-quiet λ now w h. update_row-OnLog i _ (find i w.transfers) w h

  pub update_compliance_status-OnLog :
      (i : String) (status : ComplianceStatus)
      → Keeps (OnLog Q) (update_compliance_status env i status)
  unfolding update_compliance_status
  update_compliance_status-OnLog i status =
      Keeps-statement env _ _ OnLog-quiet λ now w h. update_row-OnLog i _ (find i w.transfers) w h

  bump_row-OnLog :
      (i : String) (now : ℕ) (o : Option TransferRequest) (w : World)
      → OnLog Q w
      → OnLog Q (bump_row env i now o w).1
  bump_row-OnLog i now none w h = h
  bump_row-OnLog i now (some r) w h = elim (Bool-cases (ltb r.blockchain_retry_count max_i32)) [
    | inl e ↦ rw e (record { log = h.log })
    | inr e ↦ rw e h
  ]

  pub increment_retry_count-OnLog : (i : String) → Keeps (OnLog Q) (increment_retry_count env i)
  unfolding increment_retry_count
  increment_retry_count-OnLog i =
      Keeps-statement env _ _ OnLog-quiet λ now w h. bump_row-OnLog i now (find i w.transfers) w h

  pub get_transfer_by_signature-OnLog :
      (sig : String) → Keeps (OnLog Q) (get_transfer_by_signature env sig)
  unfolding get_transfer_by_signature
  get_transfer_by_signature-OnLog sig = Keeps-statement env _ _ OnLog-quiet λ now w h. h

  pub find_by_nonce-OnLog : (a n : String) → Keeps (OnLog Q) (find_by_nonce env a n)
  unfolding find_by_nonce
  find_by_nonce-OnLog a n = Keeps-statement env _ _ OnLog-quiet λ now w h. h

  pub update_jito_tracking-OnLog :
      (i : String) (sig : Option String) (kind : LastErrorType) (hash : Option String)
      → Keeps (OnLog Q) (update_jito_tracking env i sig kind hash)
  unfolding update_jito_tracking
  update_jito_tracking-OnLog i sig kind hash =
      Keeps-statement env _ _ OnLog-quiet λ now w h. record { log = h.log }

  pub get_pending_blockchain_requests-OnLog :
      (limit : ℕ) → Keeps (OnLog Q) (get_pending_blockchain_requests env limit)
  unfolding get_pending_blockchain_requests
  get_pending_blockchain_requests-OnLog limit =
      Keeps-statement env _ _ OnLog-quiet λ now w h. record { log = h.log }

  pub get_stale_submitted_transactions-OnLog :
      (age limit : ℕ) → Keeps (OnLog Q) (get_stale_submitted_transactions env age limit)
  unfolding get_stale_submitted_transactions
  get_stale_submitted_transactions-OnLog age limit =
      Keeps-statement env _ _ OnLog-quiet λ now w h. h

  pub select_checkout_session-OnLog : (i : String) → Keeps (OnLog Q) (select_checkout_session env i)
  unfolding select_checkout_session
  select_checkout_session-OnLog i = Keeps-statement env _ _ OnLog-quiet λ now w h. h

  link_session-OnLog :
      (i t : String) (status : CheckoutSessionStatus) (now : ℕ) (o : Option CheckoutSession)
      (w : World)
      → OnLog Q w
      → OnLog Q (link_session env i t status now o w).1
  link_session-OnLog i t status now none w h = h
  link_session-OnLog i t status now (some s) w h = record { log = h.log }

  pub link_checkout_session_transfer-OnLog :
      (i t : String) (status : CheckoutSessionStatus)
      → Keeps (OnLog Q) (link_checkout_session_transfer env i t status)
  unfolding link_checkout_session_transfer
  link_checkout_session_transfer-OnLog i t status =
      Keeps-statement env _ _ OnLog-quiet λ now w h. link_session-OnLog i t status now _ w h

  pub add_address-OnLog : (a reason : String) → Keeps (OnLog Q) (add_address env a reason)
  unfolding add_address
  add_address-OnLog a reason = Keeps-statement env _ _ OnLog-quiet λ now w h. record { log = h.log }

pub ruleset log_rules = (
  OnLog-quiet, get_transfer_request-OnLog, insert_transfer_request-OnLog,
  update_blockchain_status-OnLog, update_compliance_status-OnLog, increment_retry_count-OnLog,
  get_transfer_by_signature-OnLog, find_by_nonce-OnLog, update_jito_tracking-OnLog,
  get_pending_blockchain_requests-OnLog, get_stale_submitted_transactions-OnLog,
  select_checkout_session-OnLog, link_checkout_session_transfer-OnLog, add_address-OnLog,
)
