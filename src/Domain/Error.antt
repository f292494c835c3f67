-- ===== src/Domain/Error.antt =====
-- The error types of src/domain/error.rs with their `Display` texts, and the default
-- `BlockchainClient::classify_error` of src/domain/traits.rs.
use solana_compliance_relaye.Prelude.{
  ℕ, Option, none, some, String, str_eq, ◌+++◌, decimal, if◌then◌else◌,
}
use solana_compliance_relaye.Domain.Status.{LastErrorType}

pub data DatabaseError : Type 0 where
  connection query not_found duplicate pool_exhausted migration : String → DatabaseError

pub data BlockchainError : Type 0 where
  connection rpc_error transaction_failed invalid_signature wallet_error : String → BlockchainError
  insufficient_funds : BlockchainError
  timeout helius_api_error das_compliance_failed quick_node_api_error : String → BlockchainError
  jito_bundle_failed jito_state_unknown private_submission_fallback : String → BlockchainError
  -- the message, then the blockhash of the attempt
  timeout_with_blockhash network_error_with_blockhash : String → String → BlockchainError

pub data ConfigError : Type 0 where
  missing_env_var parse_error : String → ConfigError
  invalid_value : String → String → ConfigError

pub data ValidationError : Type 0 where
  -- the field, then the message
  invalid_field : String → String → ValidationError
  missing_field invalid_format invalid_address multiple duplicate_request : String → ValidationError

pub data ExternalServiceError : Type 0 where
  http_error unavailable timeout rate_limited configuration network parse_error :
      String → ExternalServiceError
  api_error : ℕ → String → ExternalServiceError

pub data AppError : Type 0 where
  database : DatabaseError → AppError
  blockchain : BlockchainError → AppError
  external_service : ExternalServiceError → AppError
  config : ConfigError → AppError
  validation : ValidationError → AppError
  authentication authorization serialization deserialization internal not_supported :
      String → AppError
  rate_limited : AppError

database_text : DatabaseError → String
database_text (DatabaseError.connection m) = "Connection failed: " +++ m
database_text (DatabaseError.query m) = "Query execution failed: " +++ m
database_text (DatabaseError.not_found m) = "Record not found: " +++ m
database_text (DatabaseError.duplicate m) = "Duplicate record: " +++ m
database_text (DatabaseError.pool_exhausted m) = "Pool exhausted: " +++ m
database_text (DatabaseError.migration m) = "Migration failed: " +++ m

blockchain_text : BlockchainError → String
blockchain_text (BlockchainError.connection m) = "Connection failed: " +++ m
blockchain_text (BlockchainError.rpc_error m) = "RPC call failed: " +++ m
blockchain_text (BlockchainError.transaction_failed m) = "Transaction failed: " +++ m
blockchain_text (BlockchainError.invalid_signature m) = "Invalid signature: " +++ m
blockchain_text (BlockchainError.wallet_error m) = "Wallet error: " +++ m
blockchain_text BlockchainError.insufficient_funds = "Insufficient funds for transaction"
blockchain_text (BlockchainError.timeout m) = "Timeout waiting for confirmation: " +++ m
blockchain_text (BlockchainError.helius_api_error m) = "Helius API error: " +++ m
blockchain_text (BlockchainError.das_compliance_failed m) = "DAS compliance check failed: " +++ m
blockchain_text (BlockchainError.quick_node_api_error m) = "QuickNode API error: " +++ m
blockchain_text (BlockchainError.jito_bundle_failed m) = "Jito bundle submission failed: " +++ m
blockchain_text (BlockchainError.jito_state_unknown m) =
    "Jito bundle state unknown (DO NOT retry blindly): " +++ m
blockchain_text (BlockchainError.private_submission_fallback m) =
    "Private submission unavailable, falling back: " +++ m
blockchain_text (BlockchainError.timeout_with_blockhash m h) =
    "Submission timed out with blockhash " +++ h +++ ": " +++ m
blockchain_text (BlockchainError.network_error_with_blockhash m h) =
    "Network error with blockhash " +++ h +++ ": " +++ m

config_text : ConfigError → String
config_text (ConfigError.missing_env_var m) = "Missing environment variable: " +++ m
config_text (ConfigError.parse_error m) = "Parse error: " +++ m
config_text (ConfigError.invalid_value k m) = "Invalid value for '" +++ k +++ "': " +++ m

validation_text : ValidationError → String
validation_text (ValidationError.invalid_field f m) = "Invalid field '" +++ f +++ "': " +++ m
validation_text (ValidationError.missing_field m) = "Missing required field: " +++ m
validation_text (ValidationError.invalid_format m) = "Invalid format: " +++ m
validation_text (ValidationError.invalid_address m) = "Invalid address: " +++ m
validation_text (ValidationError.multiple m) = "Validation failed: " +++ m
validation_text (ValidationError.duplicate_request n) =
    "Duplicate request: nonce '" +++ n +++ "' has already been used"

external_text : ExternalServiceError → String
external_text (ExternalServiceError.http_error m) = "HTTP request failed: " +++ m
external_text (ExternalServiceError.unavailable m) = "Service unavailable: " +++ m
external_text (ExternalServiceError.timeout m) = "Timeout: " +++ m
external_text (ExternalServiceError.rate_limited m) = "Rate limited: " +++ m
external_text (ExternalServiceError.configuration m) = "Configuration error: " +++ m
external_text (ExternalServiceError.network m) = "Network error: " +++ m
external_text (ExternalServiceError.parse_error m) = "Parse error: " +++ m
external_text (ExternalServiceError.api_error c m) =
    "API error (status " +++ decimal c +++ "): " +++ m

-- `Display` of `AppError`.
unfoldable pub to_string : AppError → String
unfolding database_text blockchain_text config_text validation_text external_text
to_string (AppError.database e) = database_text e
to_string (AppError.blockchain e) = blockchain_text e
to_string (AppError.external_service e) = external_text e
to_string (AppError.config e) = config_text e
to_string (AppError.validation e) = validation_text e
to_string (AppError.authentication m) = "Authentication failed: " +++ m
to_string (AppError.authorization m) = "Authorization denied: " +++ m
to_string (AppError.serialization m) = "Serialization error: " +++ m
to_string (AppError.deserialization m) = "Deserialization error: " +++ m
to_string (AppError.internal m) = "Internal error: " +++ m
to_string (AppError.not_supported m) = "Operation not supported: " +++ m
to_string AppError.rate_limited = "Rate limit exceeded"

-- `sqlx::Error` as far as the code looks into it: a database error has a code and a message, any
-- other error only its text.
pub data SqlxError : Type 0 where
  row_not_found pool_timed_out : SqlxError
  database : Option String → String → SqlxError
  other : String → SqlxError

-- `From<sqlx::Error> for DatabaseError`.
unfoldable pub from_sqlx : SqlxError → DatabaseError
from_sqlx SqlxError.row_not_found = DatabaseError.not_found "Row not found"
from_sqlx SqlxError.pool_timed_out = DatabaseError.pool_exhausted "Pool timed out"
from_sqlx (SqlxError.database none m) = DatabaseError.query m
from_sqlx (SqlxError.database (some c) m) =
    if str_eq c "23505" then DatabaseError.duplicate m else DatabaseError.query m
from_sqlx (SqlxError.other t) = DatabaseError.query t

unfoldable pub classify_blockchain : BlockchainError → LastErrorType
classify_blockchain (BlockchainError.jito_state_unknown _) = LastErrorType.jito_state_unknown
classify_blockchain (BlockchainError.jito_bundle_failed _) = LastErrorType.jito_bundle_failed
classify_blockchain (BlockchainError.connection _) = LastErrorType.network_error
classify_blockchain (BlockchainError.timeout _) = LastErrorType.network_error
classify_blockchain (BlockchainError.rpc_error _) = LastErrorType.network_error
classify_blockchain (BlockchainError.timeout_with_blockhash _ _) = LastErrorType.network_error
classify_blockchain (BlockchainError.network_error_with_blockhash _ _) = LastErrorType.network_error
classify_blockchain _ = LastErrorType.transaction_failed

-- `BlockchainClient::classify_error`, which no client overrides.
unfoldable pub classify_error : AppError → LastErrorType
unfolding classify_blockchain
classify_error (AppError.blockchain e) = classify_blockchain e
classify_error (AppError.validation _) = LastErrorType.validation_error
classify_error _ = LastErrorType.transaction_failed
