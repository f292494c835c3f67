-- ===== src/Database/Effects.antt =====
-- What the statements on transfers do when the database answers.
use solana_compliance_relaye.Prelude.{
  ℕ, suc, ◌≡◌, refl, ◌∙◌, Option, none, some, List, [], ◌∷◌, ◌++◌, String, str_eq_self, ltb, true,
}
use solana_compliance_relaye.Domain.Status.{BlockchainStatus, ComplianceStatus, LastErrorType}
use solana_compliance_relaye.Domain.Transfer.{TransferRequest, SubmitTransferRequest}
use solana_compliance_relaye.Runtime.{Env, World, ok}
use solana_compliance_relaye.Database.Table.{find, find_where, modify, KeepsId, find-modify}
use solana_compliance_relaye.Database.Statement.{statement}
use solana_compliance_relaye.Database.Transfers.{
  new_row, has_nonce, has_sender_nonce, set_blockchain, set_compliance, get_transfer_request,
  insert_transfer_request, update_blockchain_status, update_compliance_status, find_by_nonce,
  insert_transfer, set_jito, update_jito_tracking, increment_retry_count, set_retry_count, max_i32,
}

-- A lookup right after an update of the same row.
pub find-modify_self :
    (i : String) (f : TransferRequest → TransferRequest) (rs : List TransferRequest)
    {r : TransferRequest}
    → KeepsId f
    → find i rs ≡ some r
    → find i (modify i f rs) ≡ some (f r)
find-modify_self i f rs k e = find-modify i i f rs k ∙ rw (str_eq_self i, e) refl

module _ (env : Env) where
  pub get_transfer_request_up :
      (i : String) (w : World)
      → env.fault w.tick ≡ none
      → get_transfer_request env i w ≡ (ok (find i w.transfers), record w { tick = suc w.tick })
  unfolding get_transfer_request statement
  get_transfer_request_up i w up = rw up refl

  pub find_by_nonce_up :
      (a n : String) (w : World)
      → env.fault w.tick ≡ none
      → find_by_nonce env a n w
        ≡ (ok (find_where (has_sender_nonce a n) w.transfers), record w { tick = suc w.tick })
  unfolding find_by_nonce statement
  find_by_nonce_up a n w up = rw up refl

  pub insert_transfer_request_new :
      (request : SubmitTransferRequest) (w : World)
      → env.fault w.tick ≡ none
      → find_where (has_nonce request.nonce) w.transfers ≡ none
      → find (env.new_uuid w.tick) w.transfers ≡ none
      → let row = new_row request (env.new_uuid w.tick) (env.clock w.tick) in
        insert_transfer_request env request w
        ≡ (ok row, record w { transfers = w.transfers ++ row ∷ []; tick = suc w.tick })
  unfolding insert_transfer_request insert_transfer statement
  insert_transfer_request_new request w up nonce fresh = rw (up, nonce, fresh) refl

  -- The row that has the nonce already is given back, whoever sent it.
  pub insert_transfer_request_existing :
      (request : SubmitTransferRequest) (w : World) {r : TransferRequest}
      → env.fault w.tick ≡ none
      → find_where (has_nonce request.nonce) w.transfers ≡ some r
      → insert_transfer_request env request w ≡ (ok r, record w { tick = suc w.tick })
  unfolding insert_transfer_request insert_transfer statement
  insert_transfer_request_existing request w up nonce = rw (up, nonce) refl

  pub update_blockchain_status_up :
      (i : String) (status : BlockchainStatus) (sig error : Option String) (next : Option ℕ)
      (hash : Option String) (w : World) {r : TransferRequest}
      → env.fault w.tick ≡ none
      → find i w.transfers ≡ some r
      → update_blockchain_status env i status sig error next hash w ≡ (
        ok tt,
        record w {
          transfers =
              modify i (set_blockchain status sig error next hash (env.clock w.tick)) w.transfers;
          tick = suc w.tick;
        },
      )
  unfolding update_blockchain_status statement
  update_blockchain_status_up i status sig error next hash w up found = rw (up, found) refl

  pub update_compliance_status_up :
      (i : String) (status : ComplianceStatus) (w : World) {r : TransferRequest}
      → env.fault w.tick ≡ none
      → find i w.transfers ≡ some r
      → update_compliance_status env i status w ≡ (
        ok tt,
        record w {
          transfers = modify i (set_compliance status (env.clock w.tick)) w.transfers;
          tick = suc w.tick;
        },
      )
  unfolding update_compliance_status statement
  update_compliance_status_up i status w up found = rw (up, found) refl

  pub increment_retry_count_up :
      (i : String) (w : World) {r : TransferRequest}
      → env.fault w.tick ≡ none
      → find i w.transfers ≡ some r
      → ltb r.blockchain_retry_count max_i32 ≡ true
      → increment_retry_count env i w ≡ (
        ok (suc r.blockchain_retry_count),
        record w {
          transfers = modify i (set_retry_count (env.clock w.tick)) w.transfers;
          tick = suc w.tick;
        },
      )
  unfolding increment_retry_count statement
  increment_retry_count_up i w up found small = rw (up, found) (rw small refl)

  pub update_jito_tracking_up :
      (i : String) (sig : Option String) (kind : LastErrorType) (hash : Option String) (w : World)
      → env.fault w.tick ≡ none
      → update_jito_tracking env i sig kind hash w ≡ (
        ok tt,
        record w {
          transfers = modify i (set_jito sig kind hash (env.clock w.tick)) w.transfers;
          tick = suc w.tick;
        },
      )
  unfolding update_jito_tracking statement
  update_jito_tracking_up i sig kind hash w up = rw up refl
