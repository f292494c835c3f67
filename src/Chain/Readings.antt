-- ===== src/Chain/Readings.antt =====
-- Two readings of the same answer in src/infra/blockchain/solana.rs, and what becomes of an error
-- that is wrapped with a blockhash.
use solana_compliance_relaye.Prelude.{
  ◌≡◌, refl, sym, Bool, true, false, Option, none, some, String, ◌+++◌, List, [], ◌∷◌, opt_eq,
  str_eq, unwrap_or, if◌then◌else◌, ◌||◌,
}
use solana_compliance_relaye.Domain.Status.{TransactionStatus, LastErrorType}
use solana_compliance_relaye.Domain.Error.{
  AppError, BlockchainError, classify_error, classify_blockchain,
}
use solana_compliance_relaye.Runtime.{Result, ok, err}
use solana_compliance_relaye.Service.Backoff.{extract_blockhash_from_error}
use solana_compliance_relaye.Chain.Jito.{chain_err}
use solana_compliance_relaye.Chain.Rpc.{
  SignatureStatus, first_status, read_signature_status, read_transaction_status, signature_status,
  transaction_status, chain_verdict, confirmation, is_confirmed_by,
}
use solana_compliance_relaye.Chain.Errors.{wrap_error_with_blockhash}

-- A status as an answer to whether the transaction is confirmed.
abbrev pub is_confirmed_answer : Result (Option TransactionStatus) → Result Bool
is_confirmed_answer (err e) = err e
is_confirmed_answer (ok none) = ok false
is_confirmed_answer (ok (some TransactionStatus.confirmed)) = ok true
is_confirmed_answer (ok (some TransactionStatus.finalized)) = ok true
is_confirmed_answer (ok (some (TransactionStatus.failed e))) =
    chain_err (BlockchainError.transaction_failed ("Transaction failed: Some(" +++ e +++ ")"))

confirmation_agrees :
    (level : Option String)
    → is_confirmed_answer (ok (confirmation level))
      ≡ ok (opt_eq level (some "confirmed") || opt_eq level (some "finalized"))
unfolding confirmation
confirmation_agrees none = refl
confirmation_agrees (some level) = by_tests (str_eq level "confirmed") (str_eq level "finalized")
  where
    by_tests :
        (b c : Bool)
        → is_confirmed_answer (
            ok (
              if c
              then some TransactionStatus.finalized
              else if b
              then some TransactionStatus.confirmed
              else none))
          ≡ ok (b || c)
    by_tests true true = refl
    by_tests true false = refl
    by_tests false true = refl
    by_tests false false = refl

status_agrees :
    (o : Option SignatureStatus)
    → transaction_status o ≡ is_confirmed_answer (ok (signature_status o))
unfolding transaction_status signature_status is_confirmed_by chain_verdict
status_agrees none = refl
status_agrees (some s) = by_error s.err_text
  where
    by_error :
        (o : Option String)
        → is_confirmed_by o s.confirmation_status
          ≡ is_confirmed_answer (ok (chain_verdict o s.confirmation_status))
    by_error none = sym (confirmation_agrees s.confirmation_status)
    by_error (some e) = refl

-- What an answer of the node tells of the transaction: of its first status only, a failure with its
-- error, or whether the commitment is confirmed or finalized.
abbrev pub told : Result (List (Option SignatureStatus)) → Result Bool
told (err e) = err e
told (ok []) = ok false
told (ok (none ∷ statuses)) = ok false
told (ok (some s ∷ statuses)) = elim s.err_text [
  | none ↦ ok (
      opt_eq s.confirmation_status (some "confirmed")
      || opt_eq s.confirmation_status (some "finalized"))
  | some e ↦
      chain_err (BlockchainError.transaction_failed ("Transaction failed: Some(" +++ e +++ ")"))
]

told_lem :
    (answer : Result (List (Option SignatureStatus))) → read_transaction_status answer ≡ told answer
unfolding read_transaction_status transaction_status is_confirmed_by
told_lem (err e) = refl
told_lem (ok []) = refl
told_lem (ok (none ∷ statuses)) = refl
told_lem (ok (some s ∷ statuses)) = by_error s.err_text
  where
    by_error :
        (o : Option String)
        → is_confirmed_by o s.confirmation_status ≡ elim o [
          | none ↦ ok (
              opt_eq s.confirmation_status (some "confirmed")
              || opt_eq s.confirmation_status (some "finalized"))
          | some e ↦
              chain_err
                (BlockchainError.transaction_failed ("Transaction failed: Some(" +++ e +++ ")"))
        ]
    by_error none = refl
    by_error (some e) = refl

-- On every answer of the node, errors included, the poll for a confirmation and the query that the
-- worker and the crank make agree, and tell the same: confirmed for a status of confirmed or finalized
-- commitment, so that confirmed suffices; a failure with its text for one that failed; not confirmed
-- for any other.
pub statuses_agree :
    (answer : Result (List (Option SignatureStatus)))
    → (read_transaction_status answer ≡ is_confirmed_answer (read_signature_status answer))
      × (read_transaction_status answer ≡ told answer)
unfolding read_transaction_status read_signature_status
statuses_agree (ok statuses) = (status_agrees (first_status statuses), told_lem (ok statuses))
statuses_agree (err e) = (refl, refl)

abbrev pub is_network_error : LastErrorType → Bool
is_network_error LastErrorType.network_error = true
is_network_error _ = false

-- Wrapping an error with a blockhash leaves its kind, and gives every error of the network, and no
-- other, a blockhash for the retry: its own, if it has one already, or the given one.
pub wrap_error_with_blockhash_lem :
    (e : AppError) (blockhash : String)
    → (classify_error (wrap_error_with_blockhash e blockhash) ≡ classify_error e)
      × (extract_blockhash_from_error (wrap_error_with_blockhash e blockhash) ≡ (
          if is_network_error (classify_error e)
          then some (unwrap_or (extract_blockhash_from_error e) blockhash)
          else none))
unfolding wrap_error_with_blockhash classify_error classify_blockchain extract_blockhash_from_error
wrap_error_with_blockhash_lem (AppError.blockchain (BlockchainError.timeout m)) h = (refl, refl)
wrap_error_with_blockhash_lem (AppError.blockchain (BlockchainError.connection m)) h = (refl, refl)
wrap_error_with_blockhash_lem (AppError.blockchain (BlockchainError.rpc_error m)) h = (refl, refl)
wrap_error_with_blockhash_lem (AppError.blockchain _) h = (refl, refl)
wrap_error_with_blockhash_lem (AppError.validation _) h = (refl, refl)
wrap_error_with_blockhash_lem _ h = (refl, refl)
