-- ===== src/Api/Errors.antt =====
-- `IntoResponse` of `AppError` in src/api/handlers.rs: the status code, the kind and the message of
-- the error response.
use solana_compliance_relaye.Prelude.{ℕ, String}
use solana_compliance_relaye.Domain.Error.{
  AppError, DatabaseError, BlockchainError, ExternalServiceError, to_string,
}

-- `ErrorResponse` with the status of its response.
pub record ErrorResponse : Type 0 where
  pub status : ℕ
  pub error_type : String
  pub message : String

abbrev answer : ℕ → String → AppError → ErrorResponse
answer status error_type e = record {
  status = status;
  error_type = error_type;
  message = to_string e;
}

unfoldable pub database_response : DatabaseError → AppError → ErrorResponse
database_response (DatabaseError.connection _) e = answer 503 "database_error" e
database_response (DatabaseError.not_found _) e = answer 404 "not_found" e
database_response (DatabaseError.duplicate _) e = answer 409 "duplicate" e
database_response _ e = answer 500 "database_error" e

unfoldable pub blockchain_response : BlockchainError → AppError → ErrorResponse
blockchain_response (BlockchainError.connection _) e = answer 503 "blockchain_error" e
blockchain_response BlockchainError.insufficient_funds e = answer 402 "insufficient_funds" e
blockchain_response (BlockchainError.timeout _) e = answer 504 "timeout" e
blockchain_response _ e = answer 500 "blockchain_error" e

unfoldable pub external_response : ExternalServiceError → AppError → ErrorResponse
external_response (ExternalServiceError.unavailable _) e = answer 502 "external_service_error" e
external_response (ExternalServiceError.timeout _) e = answer 504 "timeout" e
external_response (ExternalServiceError.rate_limited _) e = answer 429 "rate_limited" e
external_response _ e = answer 502 "external_service_error" e

unfoldable pub into_response : AppError → ErrorResponse
unfolding database_response blockchain_response external_response
into_response (AppError.database d) = database_response d (AppError.database d)
into_response (AppError.blockchain b) = blockchain_response b (AppError.blockchain b)
into_response (AppError.external_service x) = external_response x (AppError.external_service x)
into_response (AppError.config c) = answer 500 "configuration_error" (AppError.config c)
into_response (AppError.validation v) = answer 400 "validation_error" (AppError.validation v)
into_response (AppError.authentication m) =
    answer 401 "authentication_error" (AppError.authentication m)
into_response (AppError.authorization m) =
    answer 403 "authorization_error" (AppError.authorization m)
into_response (AppError.serialization m) =
    answer 500 "serialization_error" (AppError.serialization m)
into_response (AppError.deserialization m) =
    answer 400 "deserialization_error" (AppError.deserialization m)
into_response (AppError.internal m) = answer 500 "internal_error" (AppError.internal m)
into_response (AppError.not_supported m) = answer 501 "not_supported" (AppError.not_supported m)
into_response AppError.rate_limited = answer 429 "rate_limited" AppError.rate_limited
