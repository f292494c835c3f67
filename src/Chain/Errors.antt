-- ===== src/Chain/Errors.antt =====
-- Errors of the Solana client in src/infra/blockchain/solana.rs: `map_solana_client_error` and
-- `wrap_error_with_blockhash`.
use solana_compliance_relaye.Prelude.{◌||◌, String, contains, if◌then◌else◌}
use solana_compliance_relaye.Domain.Error.{AppError, BlockchainError}

-- `ClientErrorKind` as far as the code tells its cases apart.
pub data ClientErrorKind : Type 0 where
  rpc_error io reqwest other_kind : ClientErrorKind

pub record ClientError : Type 0 where
  pub kind : ClientErrorKind
  pub text : String

error_of_kind : ClientErrorKind → String → BlockchainError
unfolding contains
error_of_kind ClientErrorKind.rpc_error message =
    if contains message "insufficient" || contains message "InsufficientFunds"
    then BlockchainError.insufficient_funds
    else BlockchainError.rpc_error message
error_of_kind ClientErrorKind.io message = BlockchainError.connection message
error_of_kind ClientErrorKind.reqwest message =
    if contains message "timeout" || contains message "timed out"
    then BlockchainError.timeout message
    else BlockchainError.connection message
error_of_kind ClientErrorKind.other_kind message = BlockchainError.transaction_failed message

unfoldable pub map_solana_client_error : ClientError → AppError
unfolding error_of_kind
map_solana_client_error e = AppError.blockchain (error_of_kind e.kind e.text)

unfoldable pub wrap_error_with_blockhash : AppError → String → AppError
wrap_error_with_blockhash (AppError.blockchain (BlockchainError.timeout message)) blockhash =
    AppError.blockchain (BlockchainError.timeout_with_blockhash message blockhash)
wrap_error_with_blockhash (AppError.blockchain (BlockchainError.connection message)) blockhash =
    AppError.blockchain (BlockchainError.network_error_with_blockhash message blockhash)
wrap_error_with_blockhash (AppError.blockchain (BlockchainError.rpc_error message)) blockhash =
    AppError.blockchain (BlockchainError.network_error_with_blockhash message blockhash)
wrap_error_with_blockhash e blockhash = e
