-- ===== src/EventBus/Passports/Tests.antt =====
-- A schedule of the consumer of the passport service, in which the first delivery meets a failing
-- query.
use zk_dpp_royalty_protocol.Common.{String, refl, none, some, true, false, List, [], ◌∷◌, In, here}
use zk_dpp_royalty_protocol.Common.Results.{Result, ok}
use zk_dpp_royalty_protocol.Schemas.{VerificationEvent}
use zk_dpp_royalty_protocol.Dpp.Types.{Product}
use zk_dpp_royalty_protocol.Dpp.Database.{
  Tables, Postgres, get_product, get_product_by_binding, record_verification,
}
use zk_dpp_royalty_protocol.EventBus.Consumer.{Attempt, process_message, step, run}
use zk_dpp_royalty_protocol.EventBus.Passports.{Env, handler}
use zk_dpp_royalty_protocol.EventBus.Passports.Recorded.{verification_of, passport_recorded}

abbrev product : Product
product = record {
  id = "p-1";
  sku = "sku-1";
  name = "Battery";
  description = none;
  category = "battery";
  metadata = "{}";
  created_at = 50;
  updated_at = 50;
}

abbrev db : Tables
db = record { products = product ∷ []; links = []; verified = [] }

abbrev pg : Postgres
pg = record {
  by_linked_at = λ ls. ls;
  by_verified_at = λ vs. vs;
  sha256_hex = λ s. s;
  is_uuid = λ s. true;
}

abbrev event : VerificationEvent
event = record {
  event_id = "e-1";
  event_type = "proofs.verified";
  timestamp = 100;
  payload = record {
    receipt_id = "r-1";
    predicate_id = record { name = "CARBON"; version = "V1" };
    supplier_id = "s-1";
    requester_id = "b-1";
    product_binding = some "product:p-1";
    result = true;
    commitment_root = none;
  };
  gateway_id = none;
}

abbrev parse : String → Result VerificationEvent
parse m = ok event

abbrev schedule : List (Attempt Env)
schedule =
    record {
      pick = 0;
      env = record {
        id = "v-1";
        now = 7;
        find_fault = none;
        record_fault = some "connection terminated";
      };
      ack_lost = false;
    }
    ∷ record {
      pick = 0;
      env = record { id = "v-2"; now = 9; find_fault = none; record_fault = none };
      ack_lost = false;
    }
    ∷ []

passport_recorded_example :
    (env : Env) × In
      (verification_of pg env event product)
      (run parse (handler pg) schedule ("m" ∷ [], db)).1.verified
unfolding run step process_message handler get_product get_product_by_binding record_verification
passport_recorded_example =
    passport_recorded pg parse schedule ("m" ∷ []) db "m" event "product:p-1" product refl
      (here refl) refl refl refl refl
