-- ===== src/EventBus/Subscriber/Unsubscribed.antt =====
-- Services that run without their subscription.
use zk_dpp_royalty_protocol.Common.{String, ◌≡◌, refl, true, false, [], ◌∷◌}
use zk_dpp_royalty_protocol.Common.Results.{ok, err}
use zk_dpp_royalty_protocol.EventBus.Client.{
  Nats, World, connect, ensure_streams, ensure_stream, is_connected, verification,
  verification_stream,
}
use zk_dpp_royalty_protocol.EventBus.Client as Bus
use zk_dpp_royalty_protocol.EventBus.Subscriber.{
  join_bus, start_subscriber, service_health, service_ready,
}

module _ {ℓ} {S : Type ℓ} (nats : Nats S) (nats_url name durable : String) (s s1 : S) where
  -- A service that cannot reach NATS when it starts has a bus that is not connected, to which it
  -- never connects again; with its database it is healthy and ready all the same.
  pub unreachable-IsReady :
      (e : String)
      → nats.connect (nats_url ∷ []) name 10 s ≡ (err e, s1)
      → let bus = start_subscriber nats nats_url name durable s in
        (bus ≡ Bus.new s1)
        × (service_health nats (ok tt) bus
            ≡ record { status = "healthy"; database = true; nats = false })
        × (service_ready (ok tt) ≡ (200, true))
  unfolding start_subscriber join_bus connect service_health is_connected
  unreachable-IsReady e h = rw (h, start_subscriber) (refl, refl, refl)

  module _ (s2 s3 s4 : S) (e e' : String) where
    -- If NATS is reached, but neither finds nor makes the stream of verifications, the service
    -- starts no consumer: what NATS has then seen is the failed attempt. With an open connection
    -- and its database the service is healthy and ready, and reports that NATS is connected.
    pub unsubscribed-IsReady :
        nats.connect (nats_url ∷ []) name 10 s ≡ (ok tt, s1)
        → nats.jetstream_manager s1 ≡ (ok tt, s2)
        → nats.stream_info verification s2 ≡ (err e, s3)
        → nats.stream_add verification_stream s3 ≡ (err e', s4)
        → nats.is_closed s4 ≡ false
        → let bus = start_subscriber nats nats_url name durable s in
          (bus.server ≡ s4)
          × (service_health nats (ok tt) bus
              ≡ record { status = "healthy"; database = true; nats = true })
          × (service_ready (ok tt) ≡ (200, true))
    unfolding start_subscriber join_bus connect service_health is_connected ensure_streams
        ensure_stream
    unsubscribed-IsReady c j i a o = rw (c, j, i, a, o, start_subscriber) (refl, refl, refl)
