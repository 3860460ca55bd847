-- ===== src/Metering/Usage/Tests.antt =====
-- Deliveries to the subscriber, and an instance of the theorem on them.
use zk_dpp_royalty_protocol.Common.{String, ◌≡◌, refl, true, none, List, [], ◌∷◌}
use zk_dpp_royalty_protocol.Predicates.{Registry}
use zk_dpp_royalty_protocol.Schemas.{VerificationEvent}
use zk_dpp_royalty_protocol.Metering.Usage.{
  price_of, currency_of, new_usage, record_usage, request_of, on_event,
}
use zk_dpp_royalty_protocol.Metering.Usage.Delivery.{
  Delivery, count, bit, delivered, deliver, deliver_all, FreshIds, metered_once,
}

abbrev event : (event_id : String) → VerificationEvent
event event_id = record {
  event_id = event_id;
  event_type = "VerificationEvent";
  timestamp = 100;
  payload = record {
    receipt_id = "r-1";
    predicate_id = record { name = "CARBON"; version = "V1" };
    supplier_id = "s-1";
    requester_id = "b-1";
    product_binding = none;
    result = true;
    commitment_root = none;
  };
  gateway_id = none;
}

abbrev registry : Registry
registry = []

-- the first event is delivered twice
abbrev deliveries : List Delivery
deliveries =
    record { id = "u-1"; now = 100; event = event "e-1" }
    ∷ record { id = "u-2"; now = 200; event = event "e-2" }
    ∷ record { id = "u-3"; now = 300; event = event "e-1" }
    ∷ []

deliveries-FreshIds : FreshIds registry deliveries []
unfolding deliver on_event record_usage new_usage request_of price_of currency_of
deliveries-FreshIds = (refl, (refl, (refl, tt)))

metered_once_example :
    count "e-1" (deliver_all registry deliveries []) ≡ bit (delivered "e-1" deliveries)
metered_once_example = metered_once registry deliveries "e-1" deliveries-FreshIds
