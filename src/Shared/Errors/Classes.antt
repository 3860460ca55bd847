-- ===== src/Shared/Errors/Classes.antt =====
-- packages/shared/src/errors/index.ts: the classes of errors, each with the code that it has unless
-- another one is given, and `wrapError`. Details and stack traces are left out.
use zk_dpp_royalty_protocol.Common.{ℕ, String, Option, none, some, truthy, or_else, if◌then◌else◌}
use zk_dpp_royalty_protocol.Predicates.{◌⧺◌}
use zk_dpp_royalty_protocol.Shared.Errors.{
  ZkDppError, get_http_status_from_code, authentication_required, authorization_failed,
}

-- An instance of `ZkDppError` or of a subclass, with the name of its class.
pub record NamedError : Type 0 where
  pub name : String
  pub error : ZkDppError

-- `statusCode`
abbrev pub status_code : NamedError → ℕ
status_code e = get_http_status_from_code e.error.code

abbrev pub named : (name code message : String) → NamedError
named name code message = record { name = name; error = record { code = code; message = message } }

abbrev pub validation_error : (message : String) → NamedError
validation_error message = named "ValidationError" "ZKDPP-VAL-100" message

abbrev pub authentication_error : (message code : Option String) → NamedError
authentication_error message code =
    named "AuthenticationError" (or_else code authentication_required)
      (or_else message "Authentication required")

abbrev pub authorization_error : (message code : Option String) → NamedError
authorization_error message code =
    named "AuthorizationError" (or_else code authorization_failed) (or_else message "Access denied")

abbrev not_found_message : String → Option String → String
not_found_message resource none = resource ⧺ " not found"
not_found_message resource (some identifier) =
    if truthy identifier then resource ⧺ " not found: " ⧺ identifier else resource ⧺ " not found"

abbrev pub not_found_error : (resource : String) (identifier code : Option String) → NamedError
not_found_error resource identifier code =
    named "NotFoundError" (or_else code "ZKDPP-NF-400") (not_found_message resource identifier)

abbrev pub proof_verification_error : (message : String) (code : Option String) → NamedError
proof_verification_error message code =
    named "ProofVerificationError" (or_else code "ZKDPP-PROOF-500") message

abbrev pub database_error : (message : String) (code : Option String) → NamedError
database_error message code = named "DatabaseError" (or_else code "ZKDPP-DB-600") message

abbrev pub event_bus_error : (message : String) (code : Option String) → NamedError
event_bus_error message code = named "EventBusError" (or_else code "ZKDPP-EB-700") message

abbrev pub rate_limit_error : (message : Option String) → NamedError
rate_limit_error message =
    named "RateLimitError" "ZKDPP-RL-800" (or_else message "Rate limit exceeded")

abbrev pub internal_error : (message code : Option String) → NamedError
internal_error message code =
    named "InternalError" (or_else code "ZKDPP-INT-900") (or_else message "Internal server error")

-- What a `catch` may get: an error of these classes, another `Error` with its message, or anything.
pub data Caught : Type 0 where
  ours : NamedError → Caught
  plain : (message : String) → Caught
  anything : Caught

unfoldable pub wrap_error : Caught → NamedError
wrap_error (ours e) = e
wrap_error (plain message) = internal_error (some message) (some "ZKDPP-INT-900")
wrap_error anything = internal_error (some "An unexpected error occurred") none
