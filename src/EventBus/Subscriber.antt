-- ===== src/EventBus/Subscriber.antt =====
-- What the start-up of services/metering-billing/src/index.ts and services/dpp-builder/src/index.ts
-- have in common: the optional event bus with one subscription, and the health routes. The database
-- is its health check; the loop over the messages is in EventBus/Consumer.
pub mod Unsubscribed
mod Tests
use zk_dpp_royalty_protocol.Common.{
  ℕ, String, Bool, true, false, none, some, [], ◌∷◌, if◌then◌else◌,
}
use zk_dpp_royalty_protocol.Common.Results.{Result, ok, err}
use zk_dpp_royalty_protocol.Common.Exec.{Exec, ◌>>◌, caught, pure}
use zk_dpp_royalty_protocol.EventBus.Client.{
  Nats, World, connect, ensure_streams, is_connected, proofs_verified, subscribe_to_subject, close,
}
use zk_dpp_royalty_protocol.EventBus.Client as Bus

-- `healthCheck` of a service's database, by the result of SELECT 1.
abbrev pub health_check : Result (Unit {0}) → Bool
health_check (ok u) = true
health_check (err e) = false

pub record ServiceHealth : Type 0 where
  pub status : String
  pub database : Bool
  pub nats : Bool

module _ {ℓ} {S : Type ℓ} (nats : Nats S) where
  -- The `try` block: the bus connects, makes its streams and starts the consumer of the service.
  unfoldable pub join_bus : (nats_url name durable : String) → Exec (World S) (Unit {0})
  join_bus nats_url name durable = do
    connect nats
        (record { servers = nats_url ∷ []; name = some name; max_reconnect_attempts = none })
    ensure_streams nats
    subscribe_to_subject nats proofs_verified (some durable) none ""

  -- The event bus after the attempt, whose error is only logged.
  unfoldable pub start_subscriber : (nats_url name durable : String) → S → World S
  start_subscriber nats_url name durable s =
      (caught (λ e. pure tt) (join_bus nats_url name durable (Bus.new s))).1

  -- GET /health
  unfoldable pub service_health : (db : Result (Unit {0})) → World S → ServiceHealth
  service_health db bus = record {
    status = if health_check db then "healthy" else "unhealthy";
    database = health_check db;
    nats = is_connected nats bus;
  }

-- GET /ready: the status code and the body's `ready`
abbrev pub service_ready : (db : Result (Unit {0})) → ℕ × Bool
service_ready db = if health_check db then (200, true) else (503, false)

-- The event bus after the shutdown of a service.
unfoldable pub shut_down {ℓ} : {S : Type ℓ} → Nats S → Exec (World S) (Unit {0})
shut_down nats = close nats
