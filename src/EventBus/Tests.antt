-- ===== src/EventBus/Tests.antt =====
-- Schedules of the consumer of the metering service, and the theorems applied to them.
use zk_dpp_royalty_protocol.Common.{
  ℕ, String, Bool, true, false, ◌≡◌, refl, ◌⊎◌, none, some, List, [], ◌∷◌, ◌==◌, In, here, there,
  if◌then◌else◌,
}
use zk_dpp_royalty_protocol.Common.Results.{Result, ok, err}
use zk_dpp_royalty_protocol.Predicates.{Registry}
use zk_dpp_royalty_protocol.Schemas.{VerificationEvent}
use zk_dpp_royalty_protocol.Metering.Usage.{
  Usages, price_of, currency_of, new_usage, record_usage, request_of, on_event,
}
use zk_dpp_royalty_protocol.Metering.Usage.Delivery.{count, deliver}
use zk_dpp_royalty_protocol.EventBus.Consumer.{Attempt, process_message, step, run, handed}
use zk_dpp_royalty_protocol.EventBus.Delivery.{IsHandled, waiting-Fate}
use zk_dpp_royalty_protocol.EventBus.Metering.{Env, handler, metered_exactly_once, failed-IsLost}

abbrev event : (event_id : String) → VerificationEvent
event event_id = record {
  event_id = event_id;
  event_type = "VerificationEvent";
  timestamp = 100;
  payload = record {
    receipt_id = "r-1";
    predicate_id = record { name = "CARBON"; version = "V1" };
    supplier_id = "s-1";
    requester_id = "b-1";
    product_binding = none;
    result = true;
    commitment_root = none;
  };
  gateway_id = none;
}

abbrev registry : Registry
registry = []

-- A message is the identifier of its event, or no JSON.
abbrev parse : String → Result VerificationEvent
parse m = if m == "{" then err "SyntaxError" else ok (event m)

abbrev attempt : (pick : ℕ) (id : String) (ack_lost : Bool) → Attempt Env
attempt pick id ack_lost = record {
  pick = pick;
  env = record { id = id; now = 7; fault = none };
  ack_lost = ack_lost;
}

abbrev failing : Attempt Env
failing = record {
  pick = 0;
  env = record { id = "u-1"; now = 7; fault = some "connection terminated" };
  ack_lost = false;
}

abbrev messages : List String
messages = "e-1" ∷ "e-2" ∷ []

abbrev start : List String × Usages
start = (messages, [])

-- The second message comes first, twice, since its acknowledgement was lost.
abbrev schedule : List (Attempt Env)
schedule = attempt 1 "u-1" true ∷ attempt 1 "u-2" false ∷ attempt 0 "u-3" false ∷ []

metered_exactly_once_example : count "e-2" (run parse (handler registry) schedule start).1 ≡ 1
unfolding run step process_message handler handed deliver on_event record_usage new_usage request_of
    price_of currency_of
metered_exactly_once_example =
    metered_exactly_once registry parse schedule messages "e-2" (event "e-2")
      (refl, (refl, (refl, tt))) (refl, (refl, (refl, tt))) refl (there (here refl)) refl

failed-IsLost_example :
    run parse (handler registry) (failing ∷ schedule) ("e-1" ∷ [], []) ≡ ([], [])
failed-IsLost_example =
    failed-IsLost registry parse failing schedule "e-1" "connection terminated" (event "e-1") []
      refl refl refl refl

waiting-Fate_example :
    In "{" (run parse (handler registry) schedule ("{" ∷ "e-1" ∷ [], [])).0
    ⊎ IsHandled parse
        (handler registry)
        "{"
        []
        (handed parse (handler registry) schedule ("{" ∷ "e-1" ∷ [], []))
waiting-Fate_example =
    waiting-Fate parse (handler registry) schedule ("{" ∷ "e-1" ∷ []) [] "{" (here refl)
