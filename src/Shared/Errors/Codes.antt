-- ===== src/Shared/Errors/Codes.antt =====
-- packages/shared/src/errors/codes.ts: the codes of errors and their texts.
use mathlib.Core.Option.{some-injective}
use zk_dpp_royalty_protocol.Common.{ℕ, String, ◌≡◌, refl, sym, ◌∙◌, ap, some, List, [], ◌∷◌}
use zk_dpp_royalty_protocol.Common.JsMap
use zk_dpp_royalty_protocol.Shared.Errors.{get_http_status_from_code}

pub data ErrorCode : Type 0 where
  validation_failed invalid_schema invalid_proof_format invalid_commitment : ErrorCode
  invalid_predicate missing_required_field : ErrorCode
  authentication_required invalid_token token_expired invalid_signature : ErrorCode
  authorization_failed insufficient_role access_denied resource_forbidden : ErrorCode
  not_found product_not_found supplier_not_found predicate_not_found : ErrorCode
  commitment_not_found : ErrorCode
  proof_verification_failed proof_expired nonce_already_used invalid_merkle_proof : ErrorCode
  circuit_not_found : ErrorCode
  database_error connection_failed query_failed duplicate_entry : ErrorCode
  event_bus_error event_publish_failed event_subscribe_failed : ErrorCode
  rate_limit_exceeded : ErrorCode
  internal_error service_unavailable configuration_error : ErrorCode

-- `ErrorCodes`
unfoldable pub error_codes : ErrorCode → String
error_codes validation_failed = "ZKDPP-VAL-100"
error_codes invalid_schema = "ZKDPP-VAL-101"
error_codes invalid_proof_format = "ZKDPP-VAL-102"
error_codes invalid_commitment = "ZKDPP-VAL-103"
error_codes invalid_predicate = "ZKDPP-VAL-104"
error_codes missing_required_field = "ZKDPP-VAL-105"
error_codes authentication_required = "ZKDPP-AUTH-200"
error_codes invalid_token = "ZKDPP-AUTH-201"
error_codes token_expired = "ZKDPP-AUTH-202"
error_codes invalid_signature = "ZKDPP-AUTH-203"
error_codes authorization_failed = "ZKDPP-AUTHZ-300"
error_codes insufficient_role = "ZKDPP-AUTHZ-301"
error_codes access_denied = "ZKDPP-AUTHZ-302"
error_codes resource_forbidden = "ZKDPP-AUTHZ-303"
error_codes not_found = "ZKDPP-NF-400"
error_codes product_not_found = "ZKDPP-NF-401"
error_codes supplier_not_found = "ZKDPP-NF-402"
error_codes predicate_not_found = "ZKDPP-NF-403"
error_codes commitment_not_found = "ZKDPP-NF-404"
error_codes proof_verification_failed = "ZKDPP-PROOF-500"
error_codes proof_expired = "ZKDPP-PROOF-501"
error_codes nonce_already_used = "ZKDPP-PROOF-502"
error_codes invalid_merkle_proof = "ZKDPP-PROOF-503"
error_codes circuit_not_found = "ZKDPP-PROOF-504"
error_codes database_error = "ZKDPP-DB-600"
error_codes connection_failed = "ZKDPP-DB-601"
error_codes query_failed = "ZKDPP-DB-602"
error_codes duplicate_entry = "ZKDPP-DB-603"
error_codes event_bus_error = "ZKDPP-EB-700"
error_codes event_publish_failed = "ZKDPP-EB-701"
error_codes event_subscribe_failed = "ZKDPP-EB-702"
error_codes rate_limit_exceeded = "ZKDPP-RL-800"
error_codes internal_error = "ZKDPP-INT-900"
error_codes service_unavailable = "ZKDPP-INT-901"
error_codes configuration_error = "ZKDPP-INT-902"

-- The HTTP status that fits the comment above a code.
unfoldable pub category_status : ErrorCode → ℕ
category_status validation_failed = 400
category_status invalid_schema = 400
category_status invalid_proof_format = 400
category_status invalid_commitment = 400
category_status invalid_predicate = 400
category_status missing_required_field = 400
category_status authentication_required = 401
category_status invalid_token = 401
category_status token_expired = 401
category_status invalid_signature = 401
category_status authorization_failed = 403
category_status insufficient_role = 403
category_status access_denied = 403
category_status resource_forbidden = 403
category_status not_found = 404
category_status product_not_found = 404
category_status supplier_not_found = 404
category_status predicate_not_found = 404
category_status commitment_not_found = 404
category_status proof_verification_failed = 422
category_status proof_expired = 422
category_status nonce_already_used = 422
category_status invalid_merkle_proof = 422
category_status circuit_not_found = 422
category_status database_error = 500
category_status connection_failed = 500
category_status query_failed = 500
category_status duplicate_entry = 500
category_status event_bus_error = 500
category_status event_publish_failed = 500
category_status event_subscribe_failed = 500
category_status rate_limit_exceeded = 429
category_status internal_error = 500
category_status service_unavailable = 500
category_status configuration_error = 500

-- Every code is in the table of statuses, under the category that the comment above it names.
pub get_http_status_from_code-error_codes :
    (c : ErrorCode) → get_http_status_from_code (error_codes c) ≡ category_status c
unfolding get_http_status_from_code error_codes category_status JsMap.get
get_http_status_from_code-error_codes validation_failed = refl
get_http_status_from_code-error_codes invalid_schema = refl
get_http_status_from_code-error_codes invalid_proof_format = refl
get_http_status_from_code-error_codes invalid_commitment = refl
get_http_status_from_code-error_codes invalid_predicate = refl
get_http_status_from_code-error_codes missing_required_field = refl
get_http_status_from_code-error_codes authentication_required = refl
get_http_status_from_code-error_codes invalid_token = refl
get_http_status_from_code-error_codes token_expired = refl
get_http_status_from_code-error_codes invalid_signature = refl
get_http_status_from_code-error_codes authorization_failed = refl
get_http_status_from_code-error_codes insufficient_role = refl
get_http_status_from_code-error_codes access_denied = refl
get_http_status_from_code-error_codes resource_forbidden = refl
get_http_status_from_code-error_codes not_found = refl
get_http_status_from_code-error_codes product_not_found = refl
get_http_status_from_code-error_codes supplier_not_found = refl
get_http_status_from_code-error_codes predicate_not_found = refl
get_http_status_from_code-error_codes commitment_not_found = refl
get_http_status_from_code-error_codes proof_verification_failed = refl
get_http_status_from_code-error_codes proof_expired = refl
get_http_status_from_code-error_codes nonce_already_used = refl
get_http_status_from_code-error_codes invalid_merkle_proof = refl
get_http_status_from_code-error_codes circuit_not_found = refl
get_http_status_from_code-error_codes database_error = refl
get_http_status_from_code-error_codes connection_failed = refl
get_http_status_from_code-error_codes query_failed = refl
get_http_status_from_code-error_codes duplicate_entry = refl
get_http_status_from_code-error_codes event_bus_error = refl
get_http_status_from_code-error_codes event_publish_failed = refl
get_http_status_from_code-error_codes event_subscribe_failed = refl
get_http_status_from_code-error_codes rate_limit_exceeded = refl
get_http_status_from_code-error_codes internal_error = refl
get_http_status_from_code-error_codes service_unavailable = refl
get_http_status_from_code-error_codes configuration_error = refl

abbrev by_text : List (String × ErrorCode)
by_text =
    ("ZKDPP-VAL-100", validation_failed)
    ∷ ("ZKDPP-VAL-101", invalid_schema)
    ∷ ("ZKDPP-VAL-102", invalid_proof_format)
    ∷ ("ZKDPP-VAL-103", invalid_commitment)
    ∷ ("ZKDPP-VAL-104", invalid_predicate)
    ∷ ("ZKDPP-VAL-105", missing_required_field)
    ∷ ("ZKDPP-AUTH-200", authentication_required)
    ∷ ("ZKDPP-AUTH-201", invalid_token)
    ∷ ("ZKDPP-AUTH-202", token_expired)
    ∷ ("ZKDPP-AUTH-203", invalid_signature)
    ∷ ("ZKDPP-AUTHZ-300", authorization_failed)
    ∷ ("ZKDPP-AUTHZ-301", insufficient_role)
    ∷ ("ZKDPP-AUTHZ-302", access_denied)
    ∷ ("ZKDPP-AUTHZ-303", resource_forbidden)
    ∷ ("ZKDPP-NF-400", not_found)
    ∷ ("ZKDPP-NF-401", product_not_found)
    ∷ ("ZKDPP-NF-402", supplier_not_found)
    ∷ ("ZKDPP-NF-403", predicate_not_found)
    ∷ ("ZKDPP-NF-404", commitment_not_found)
    ∷ ("ZKDPP-PROOF-500", proof_verification_failed)
    ∷ ("ZKDPP-PROOF-501", proof_expired)
    ∷ ("ZKDPP-PROOF-502", nonce_already_used)
    ∷ ("ZKDPP-PROOF-503", invalid_merkle_proof)
    ∷ ("ZKDPP-PROOF-504", circuit_not_found)
    ∷ ("ZKDPP-DB-600", database_error)
    ∷ ("ZKDPP-DB-601", connection_failed)
    ∷ ("ZKDPP-DB-602", query_failed)
    ∷ ("ZKDPP-DB-603", duplicate_entry)
    ∷ ("ZKDPP-EB-700", event_bus_error)
    ∷ ("ZKDPP-EB-701", event_publish_failed)
    ∷ ("ZKDPP-EB-702", event_subscribe_failed)
    ∷ ("ZKDPP-RL-800", rate_limit_exceeded)
    ∷ ("ZKDPP-INT-900", internal_error)
    ∷ ("ZKDPP-INT-901", service_unavailable)
    ∷ ("ZKDPP-INT-902", configuration_error)
    ∷ []

code_of-error_codes : (c : ErrorCode) → JsMap.get (error_codes c) by_text ≡ some c
unfolding error_codes JsMap.get
code_of-error_codes validation_failed = refl
code_of-error_codes invalid_schema = refl
code_of-error_codes invalid_proof_format = refl
code_of-error_codes invalid_commitment = refl
code_of-error_codes invalid_predicate = refl
code_of-error_codes missing_required_field = refl
code_of-error_codes authentication_required = refl
code_of-error_codes invalid_token = refl
code_of-error_codes token_expired = refl
code_of-error_codes invalid_signature = refl
code_of-error_codes authorization_failed = refl
code_of-error_codes insufficient_role = refl
code_of-error_codes access_denied = refl
code_of-error_codes resource_forbidden = refl
code_of-error_codes not_found = refl
code_of-error_codes product_not_found = refl
code_of-error_codes supplier_not_found = refl
code_of-error_codes predicate_not_found = refl
code_of-error_codes commitment_not_found = refl
code_of-error_codes proof_verification_failed = refl
code_of-error_codes proof_expired = refl
code_of-error_codes nonce_already_used = refl
code_of-error_codes invalid_merkle_proof = refl
code_of-error_codes circuit_not_found = refl
code_of-error_codes database_error = refl
code_of-error_codes connection_failed = refl
code_of-error_codes query_failed = refl
code_of-error_codes duplicate_entry = refl
code_of-error_codes event_bus_error = refl
code_of-error_codes event_publish_failed = refl
code_of-error_codes event_subscribe_failed = refl
code_of-error_codes rate_limit_exceeded = refl
code_of-error_codes internal_error = refl
code_of-error_codes service_unavailable = refl
code_of-error_codes configuration_error = refl

-- No two codes have the same text.
pub error_codes-injective : (c d : ErrorCode) → error_codes c ≡ error_codes d → c ≡ d
error_codes-injective c d h =
    some-injective c d
      (sym (code_of-error_codes c) ∙ ap (λ t. JsMap.get t by_text) h ∙ code_of-error_codes d)
