-- ===== src/Shared/Errors.antt =====
-- packages/shared/src/errors: the error class and the HTTP status of an error code. Details and time
-- stamps of errors are left out.
pub mod Codes
pub mod Classes
use Prim.Native.Char.{code}
use zk_dpp_royalty_protocol.Common.{
  ℕ, zero, suc, String, List, [], ◌∷◌, eqb, if◌then◌else◌, or_else,
}
use zk_dpp_royalty_protocol.Common.JsMap

pub record ZkDppError : Type 0 where
  pub code : String
  pub message : String

-- `code.split('-').slice(0, n).join('-')`, for n + 1: the text before the dash that follows n
-- dashes.
abbrev pub slice_dashes : ℕ → String → String
slice_dashes n String.[] = ""
slice_dashes zero (String.◌∷◌ c s) =
    if eqb (code c) b'-' then "" else String.◌∷◌ c (slice_dashes zero s)
slice_dashes (suc n) (String.◌∷◌ c s) =
    String.◌∷◌ c (if eqb (code c) b'-' then slice_dashes n s else slice_dashes (suc n) s)

abbrev pub error_http_status : List (String × ℕ)
error_http_status =
    ("ZKDPP-VAL", 400)
    ∷ ("ZKDPP-AUTH", 401)
    ∷ ("ZKDPP-AUTHZ", 403)
    ∷ ("ZKDPP-NF", 404)
    ∷ ("ZKDPP-PROOF", 422)
    ∷ ("ZKDPP-DB", 500)
    ∷ ("ZKDPP-EB", 500)
    ∷ ("ZKDPP-RL", 429)
    ∷ ("ZKDPP-INT", 500)
    ∷ []

unfoldable pub get_http_status_from_code : String → ℕ
get_http_status_from_code c = or_else (JsMap.get (slice_dashes 1 c) error_http_status) 500

abbrev pub authentication_required : String
authentication_required = "ZKDPP-AUTH-200"

abbrev pub invalid_token : String
invalid_token = "ZKDPP-AUTH-201"

abbrev pub token_expired : String
token_expired = "ZKDPP-AUTH-202"

abbrev pub authorization_failed : String
authorization_failed = "ZKDPP-AUTHZ-300"

abbrev pub insufficient_role : String
insufficient_role = "ZKDPP-AUTHZ-301"

abbrev pub access_denied : String
access_denied = "ZKDPP-AUTHZ-302"

abbrev pub resource_forbidden : String
resource_forbidden = "ZKDPP-AUTHZ-303"
