-- ===== src/Predicates/Tests.antt =====
-- Runs of the functions of the parent, and instances of its theorems.
use zk_dpp_royalty_protocol.Common.{◌≡◌, refl, some, arith}
use zk_dpp_royalty_protocol.Predicates.{PredicateId, canonical_id, parse_id, split_last}
use zk_dpp_royalty_protocol.Predicates.Ids.{parse_id-canonical_id, canonical_id-parse_id, IsPlain}

abbrev cert_valid : PredicateId
cert_valid = record { name = "CERT_VALID"; version = "V1" }

abbrev shifted : PredicateId
shifted = record { name = "CERT_V"; version = "1" }

-- An underscore in the version moves to the name.
split_underscore :
    parse_id (canonical_id (record { name = "CERT"; version = "V_1" })) ≡ some shifted
unfolding parse_id canonical_id split_last
split_underscore = refl

parse_id-canonical_id_example : parse_id (canonical_id cert_valid) ≡ some cert_valid
parse_id-canonical_id_example = parse_id-canonical_id cert_valid (omega arith)

canonical_id-parse_id_example : (canonical_id cert_valid ≡ "CERT_VALID_V1") × IsPlain "V1"
unfolding parse_id split_last
canonical_id-parse_id_example = canonical_id-parse_id "CERT_VALID_V1" cert_valid refl
