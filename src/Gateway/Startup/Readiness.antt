-- ===== src/Gateway/Startup/Readiness.antt =====
-- The readiness of a gateway whose event bus did not connect at start-up.
use zk_dpp_royalty_protocol.Common.{String, ◌≡◌, refl, false, some, [], ◌∷◌}
use zk_dpp_royalty_protocol.Common.Results.{err}
use zk_dpp_royalty_protocol.EventBus.Client.{Nats, World, connect, is_connected}
use zk_dpp_royalty_protocol.EventBus.Client as Bus
use zk_dpp_royalty_protocol.Gateway.Startup.{ServiceConfig, start_bus, get_health, get_ready}

module _ {ℓ} {S : Type ℓ} (nats : Nats S) (config : ServiceConfig) (s s' : S) (e : String) where
  start_bus-disconnected :
      nats.connect (config.nats_url ∷ []) "verify-gateway" 10 s ≡ (err e, s')
      → start_bus nats config s ≡ Bus.new s'
  unfolding start_bus connect
  start_bus-disconnected h = rw (h, start_bus, connect) refl

  -- If NATS cannot be reached when the gateway starts, the gateway runs on, but as the event bus is
  -- there all the same, it reports `degraded` and is never ready: GET /ready answers 503.
  pub unreachable-NotReady :
      nats.connect (config.nats_url ∷ []) "verify-gateway" 10 s ≡ (err e, s')
      → (get_health nats (some (start_bus nats config s)) ≡ ("degraded", false))
        × (get_ready nats (some (start_bus nats config s)) ≡ (503, false))
  unfolding get_health get_ready is_connected
  unreachable-NotReady h = rw (start_bus-disconnected h) (refl, refl)
