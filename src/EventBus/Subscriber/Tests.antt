-- ===== src/EventBus/Subscriber/Tests.antt =====
-- Services that start without NATS, or without a stream; and the configurations of both services.
use zk_dpp_royalty_protocol.Common.{ℕ, String, ◌≡◌, refl, true, false, Option, none, some}
use zk_dpp_royalty_protocol.Common.Results.{ok, err}
use zk_dpp_royalty_protocol.EventBus.Client.{Nats, is_connected}
use zk_dpp_royalty_protocol.EventBus.Client as Bus
use zk_dpp_royalty_protocol.EventBus.Subscriber.{
  join_bus, start_subscriber, service_health, service_ready, shut_down,
}
use zk_dpp_royalty_protocol.EventBus.Subscriber.Unsubscribed.{
  unreachable-IsReady, unsubscribed-IsReady,
}
use zk_dpp_royalty_protocol.Metering.Startup.{load_metering_config, start_metering_bus}
use zk_dpp_royalty_protocol.Dpp.Startup.{load_dpp_config}

-- A server that knows no stream and refuses to make one.
abbrev streamless : Nats (Unit {0})
streamless = record {
  connect = λ servers name attempts s. (ok tt, s);
  jetstream_manager = λ s. (ok tt, s);
  stream_info = λ name s. (err "stream not found", s);
  stream_add = λ config s. (err "insufficient storage", s);
  publish = λ subject payload s. (ok tt, s);
  consumer_info = λ stream consumer s. (ok tt, s);
  consumer_add = λ stream config s. (ok tt, s);
  consume = λ stream consumer s. (ok tt, s);
  drain = λ s. (ok tt, s);
  is_closed = λ s. false;
}

-- No server answers.
abbrev silent : Nats (Unit {0})
silent = record streamless { connect = λ servers name attempts s. (err "CONNECTION_REFUSED", s) }

unreachable-IsReady_example :
    let bus = start_subscriber silent "nats://localhost:4222" "dpp-builder" "consumer" tt in
    (bus ≡ Bus.new tt)
    × (service_health silent (ok tt) bus
        ≡ record { status = "healthy"; database = true; nats = false })
    × (service_ready (ok tt) ≡ (200, true))
unreachable-IsReady_example =
    unreachable-IsReady silent "nats://localhost:4222" "dpp-builder" "consumer" tt tt
      "CONNECTION_REFUSED" refl

unsubscribed-IsReady_example :
    let bus = start_subscriber streamless "nats://localhost:4222" "dpp-builder" "consumer" tt in
    (bus.server ≡ tt)
    × (service_health streamless (ok tt) bus
        ≡ record { status = "healthy"; database = true; nats = true })
    × (service_ready (ok tt) ≡ (200, true))
unsubscribed-IsReady_example =
    unsubscribed-IsReady streamless "nats://localhost:4222" "dpp-builder" "consumer" tt tt tt tt tt
      "stream not found" "insufficient storage" refl refl refl refl refl

-- an environment with nothing set
abbrev unset : String → Option String
unset name = none

abbrev parse_int : String → Option ℕ
parse_int s = some 3000

metering_default : (load_metering_config parse_int unset).blockchain ≡ none
unfolding load_metering_config
metering_default = refl

dpp_default : (load_dpp_config parse_int unset).host ≡ "0.0.0.0"
unfolding load_dpp_config
dpp_default = refl

metering_bus-closes :
    is_connected streamless
      (shut_down streamless
        (start_metering_bus streamless (load_metering_config parse_int unset) tt)).1
    ≡ false
unfolding is_connected shut_down Bus.close start_metering_bus start_subscriber join_bus Bus.connect
    Bus.ensure_streams Bus.ensure_stream
metering_bus-closes = refl
