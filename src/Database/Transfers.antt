-- ===== src/Database/Transfers.antt =====
-- The statements of src/infra/database/postgres.rs on `transfer_requests`.
use solana_compliance_relaye.Prelude.{
  ℕ, suc, Bool, ◌&&◌, Option, none, some, [], ◌∷◌, ◌++◌, String, str_eq, opt_eq, ltb, or_else,
  if◌then◌else◌,
}
use solana_compliance_relaye.Domain.Status.{BlockchainStatus, ComplianceStatus, LastErrorType}
use solana_compliance_relaye.Domain.Error.{AppError, SqlxError, from_sqlx}
use solana_compliance_relaye.Domain.Transfer.{TransferRequest, SubmitTransferRequest}
use solana_compliance_relaye.Runtime.{Env, World, Result, ok, err, Action, not_found}
use solana_compliance_relaye.Database.Table.{find, find_where, modify}
use solana_compliance_relaye.Database.Statement.{query_error, statement}

-- The row that `submit_transfer` inserts.
unfoldable pub new_row : SubmitTransferRequest → String → ℕ → TransferRequest
new_row payload i now = record {
  id = i;
  from_address = payload.from_address;
  to_address = payload.to_address;
  transfer_details = payload.transfer_details;
  token_mint = payload.token_mint;
  compliance_status = ComplianceStatus.pending;
  blockchain_status = BlockchainStatus.received;
  blockchain_signature = none;
  blockchain_retry_count = 0;
  blockchain_last_error = none;
  blockchain_next_retry_at = none;
  original_tx_signature = none;
  last_error_type = LastErrorType.no_error;
  blockhash_used = none;
  nonce = some payload.nonce;
  client_signature = some payload.signature;
  created_at = now;
  updated_at = now;
}

-- `ON CONFLICT (nonce)`: the unique index is on the nonce alone.
abbrev pub has_nonce : String → TransferRequest → Bool
has_nonce n r = opt_eq r.nonce (some n)

abbrev pub has_sender_nonce : String → String → TransferRequest → Bool
has_sender_nonce from_address n r = str_eq r.from_address from_address && has_nonce n r

abbrev pub has_signature : String → TransferRequest → Bool
has_signature s r = opt_eq r.blockchain_signature (some s)

-- The SET clauses.
abbrev pub set_blockchain :
    BlockchainStatus
    → Option String
    → Option String
    → Option ℕ
    → Option String
    → ℕ
    → TransferRequest
    → TransferRequest
set_blockchain status sig error next hash now r = record r {
  blockchain_status = status;
  blockchain_signature = or_else sig r.blockchain_signature;
  blockchain_last_error = error;
  blockchain_next_retry_at = next;
  blockhash_used = or_else hash r.blockhash_used;
  updated_at = now;
}

abbrev pub set_compliance : ComplianceStatus → ℕ → TransferRequest → TransferRequest
set_compliance status now r = record r { compliance_status = status; updated_at = now }

abbrev pub set_retry_count : ℕ → TransferRequest → TransferRequest
set_retry_count now r = record r {
  blockchain_retry_count = suc r.blockchain_retry_count;
  updated_at = now;
}

abbrev pub set_jito :
    Option String → LastErrorType → Option String → ℕ → TransferRequest → TransferRequest
set_jito sig kind hash now r = record r {
  original_tx_signature = or_else sig r.original_tx_signature;
  last_error_type = kind;
  blockhash_used = or_else hash r.blockhash_used;
  updated_at = now;
}

-- An UPDATE of the row with one key: no row is an error.
abbrev pub update_row :
    String
    → (TransferRequest → TransferRequest)
    → Option TransferRequest
    → World
    → Result (Unit {0}) × World
update_row i f none w = (err (not_found i), w)
update_row i f (some _) w = (ok tt, record w { transfers = modify i f w.transfers })

-- INTEGER of the column `blockchain_retry_count`.
abbrev pub max_i32 : ℕ
max_i32 = 2147483647

module _ (env : Env) where
  unfoldable pub get_transfer_request : String → Action (Option TransferRequest)
  get_transfer_request i = statement env (query_error env) λ now w. (ok (find i w.transfers), w)

  -- Insert, or give back the row with this nonce; a key that is taken is an error.
  unfoldable pub insert_transfer :
      SubmitTransferRequest
      → String
      → ℕ
      → Option TransferRequest
      → Option TransferRequest
      → World
      → Result TransferRequest × World
  unfolding from_sqlx
  insert_transfer payload i now (some existing) _ w = (ok existing, w)
  insert_transfer payload i now none (some _) w = (
    err (AppError.database (from_sqlx (SqlxError.database (some "23505") env.duplicate_key_text))),
    w,
  )
  insert_transfer payload i now none none w = (
    ok (new_row payload i now),
    record w { transfers = w.transfers ++ new_row payload i now ∷ [] },
  )

  unfoldable pub insert_transfer_request : SubmitTransferRequest → Action TransferRequest
  unfolding insert_transfer
  insert_transfer_request payload =
      statement env (λ e. AppError.database (from_sqlx e))
        λ now w.
          insert_transfer payload (env.new_uuid w.tick) now
            (find_where (has_nonce payload.nonce) w.transfers)
            (find (env.new_uuid w.tick) w.transfers) w

  unfoldable pub update_blockchain_status :
      String
      → BlockchainStatus
      → Option String
      → Option String
      → Option ℕ
      → Option String
      → Action (Unit {0})
  update_blockchain_status i status sig error next hash =
      statement env (query_error env)
        λ now w. update_row i (set_blockchain status sig error next hash now) (find i w.transfers) w

  unfoldable pub update_compliance_status : String → ComplianceStatus → Action (Unit {0})
  update_compliance_status i status =
      statement env (query_error env)
        λ now w. update_row i (set_compliance status now) (find i w.transfers) w

  -- No row, or a counter at the end of its type, is a query error.
  abbrev pub bump_row : String → ℕ → Option TransferRequest → World → Result ℕ × World
  bump_row i now none w = (err (query_error env SqlxError.row_not_found), w)
  bump_row i now (some r) w =
      if ltb r.blockchain_retry_count max_i32
      then (
        ok (suc r.blockchain_retry_count),
        record w { transfers = modify i (set_retry_count now) w.transfers },
      )
      else (err (query_error env (SqlxError.database (some "22003") "integer out of range")), w)

  unfoldable pub increment_retry_count : String → Action ℕ
  increment_retry_count i =
      statement env (query_error env) λ now w. bump_row i now (find i w.transfers) w

  unfoldable pub get_transfer_by_signature : String → Action (Option TransferRequest)
  get_transfer_by_signature sig =
      statement env (query_error env) λ now w. (ok (find_where (has_signature sig) w.transfers), w)

  unfoldable pub find_by_nonce : String → String → Action (Option TransferRequest)
  find_by_nonce from_address n =
      statement env (query_error env)
        λ now w. (ok (find_where (has_sender_nonce from_address n) w.transfers), w)

  -- No check of the affected rows here.
  unfoldable pub update_jito_tracking :
      String → Option String → LastErrorType → Option String → Action (Unit {0})
  update_jito_tracking i sig kind hash =
      statement env (query_error env)
        λ now w. (ok tt, record w { transfers = modify i (set_jito sig kind hash now) w.transfers })
