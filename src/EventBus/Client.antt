-- ===== src/EventBus/Client.antt =====
-- packages/event-bus/src/index.ts: the client's connection and its calls of NATS. NATS itself is an
-- argument, with its state `S` and what each of its calls answers in a state.
use zk_dpp_royalty_protocol.Common.{
  ℕ, ◌*◌, String, Bool, true, false, not, ◌&&◌, Option, none, some, List, [], ◌∷◌, is_some, or_text,
  if◌then◌else◌,
}
use zk_dpp_royalty_protocol.Common.Results.{ok, err}
use zk_dpp_royalty_protocol.Common.Exec.{Exec, ◌>>◌, caught}
use zk_dpp_royalty_protocol.Shared.Auth.{strip_prefix}

abbrev pub proofs_verified : String
proofs_verified = "proofs.verified"

abbrev pub receipts_issued : String
receipts_issued = "receipts.issued"

abbrev pub commitments_created : String
commitments_created = "commitments.created"

abbrev pub commitments_revoked : String
commitments_revoked = "commitments.revoked"

abbrev pub verification : String
verification = "VERIFICATION"

abbrev pub commitments : String
commitments = "COMMITMENTS"

pub record EventBusConfig : Type 0 where
  pub servers : List String
  pub name : Option String
  pub max_reconnect_attempts : Option ℕ

-- Retention, storage and replicas are the same for both streams.
pub record StreamConfig : Type 0 where
  pub name : String
  pub subjects : List String
  pub max_msgs : ℕ
  pub max_bytes : ℕ
  pub max_age : ℕ

pub record ConsumerConfig : Type 0 where
  pub durable_name : String
  pub deliver_policy : String
  pub filter_subject : Option String

pub record Nats {ℓ} (S : Type ℓ) : Type ℓ where
  pub connect : (servers : List String) (name : String) (attempts : ℕ) → Exec S (Unit {0})
  pub jetstream_manager : Exec S (Unit {0})
  pub stream_info : (name : String) → Exec S (Unit {0})
  pub stream_add : StreamConfig → Exec S (Unit {0})
  pub publish : (subject payload : String) → Exec S (Unit {0})
  pub consumer_info : (stream consumer : String) → Exec S (Unit {0})
  pub consumer_add : (stream : String) → ConsumerConfig → Exec S (Unit {0})
  -- `consumers.get` and `consume`
  pub consume : (stream consumer : String) → Exec S (Unit {0})
  pub drain : Exec S (Unit {0})
  pub is_closed : S → Bool

-- The fields of `EventBus`: which of them are set, and the state of NATS.
pub record World {ℓ} (S : Type ℓ) : Type ℓ where
  pub connection : Bool
  pub jsm : Bool
  pub js : Bool
  pub server : S

abbrev pub default_attempts : Option ℕ → ℕ
default_attempts none = 10
default_attempts (some n) = n

-- `this.config.name ?? 'zkdpp-service'`
abbrev pub default_name : Option String → String
default_name none = "zkdpp-service"
default_name (some name) = name

abbrev pub verification_stream : StreamConfig
verification_stream = record {
  name = verification;
  subjects = proofs_verified ∷ receipts_issued ∷ [];
  max_msgs = 1_000_000;
  max_bytes = 1024 * 1024 * 1024;
  max_age = 90 * 24 * 60 * 60 * 1_000_000_000;
}

abbrev pub commitments_stream : StreamConfig
commitments_stream = record {
  name = commitments;
  subjects = commitments_created ∷ commitments_revoked ∷ [];
  max_msgs = 100_000;
  max_bytes = 512 * 1024 * 1024;
  max_age = 365 * 24 * 60 * 60 * 1_000_000_000;
}

abbrev pub not_connected : String
not_connected = "Not connected"

module _ {ℓ} {S : Type ℓ} (nats : Nats S) where
  -- A call of NATS.
  abbrev pub calls {κ} : {A : Type κ} → Exec S A → Exec (World S) A
  calls m = λ w. let (r, s) = m w.server in (r, record w { server = s })

  abbrev pub set_connection : Exec (World S) (Unit {0})
  set_connection = λ w. (ok tt, record w { connection = true })

  abbrev pub set_jetstream : Exec (World S) (Unit {0})
  set_jetstream = λ w. (ok tt, record w { jsm = true; js = true })

  unfoldable pub connect : EventBusConfig → Exec (World S) (Unit {0})
  connect config = do
    calls (
        nats.connect config.servers (default_name config.name)
          (default_attempts config.max_reconnect_attempts))
    set_connection
    calls nats.jetstream_manager
    set_jetstream

  -- `if (!field) throw new Error('Not connected')`
  abbrev pub require : (World S → Bool) → Exec (World S) (Unit {0})
  require field = λ w. (if field w then ok tt else err not_connected, w)

  unfoldable pub ensure_stream : StreamConfig → Exec (World S) (Unit {0})
  ensure_stream config = do
    require (λ w. w.jsm)
    λ w. caught (λ e. calls (nats.stream_add config)) (calls (nats.stream_info config.name) w)

  unfoldable pub ensure_streams : Exec (World S) (Unit {0})
  ensure_streams = do
    require (λ w. w.jsm)
    ensure_stream verification_stream
    ensure_stream commitments_stream

  -- The payload is the text of the data.
  unfoldable pub publish : (subject payload : String) → Exec (World S) (Unit {0})
  publish subject payload = do require (λ w. w.js); calls (nats.publish subject payload)

  unfoldable pub create_consumer : (stream : String) → ConsumerConfig → Exec (World S) (Unit {0})
  create_consumer stream config = do
    require (λ w. w.jsm)
    λ w.
        caught (λ e. calls (nats.consumer_add stream config))
          (calls (nats.consumer_info stream config.durable_name) w)

  -- Up to the start of the loop.
  unfoldable pub subscribe : (stream consumer : String) → Exec (World S) (Unit {0})
  subscribe stream consumer = do require (λ w. w.js); calls (nats.consume stream consumer)

  abbrev cleared : Exec (World S) (Unit {0})
  cleared = λ w. (ok tt, record w { connection = false; jsm = false; js = false })

  abbrev drained : Exec (World S) (Unit {0})
  drained = calls nats.drain >> cleared

  unfoldable pub close : Exec (World S) (Unit {0})
  close w = if w.connection then drained w else (ok tt, w)

  unfoldable pub is_connected : World S → Bool
  is_connected w = w.connection && not (nats.is_closed w.server)

  abbrev pub stream_of : (subject : String) → String
  stream_of subject =
      if is_some (strip_prefix "commitments." subject) then commitments else verification

  -- `consumer-${Date.now()}` is an argument.
  unfoldable pub subscribe_to_subject :
      (subject : String) (durable deliver_policy : Option String) (generated : String)
      → Exec (World S) (Unit {0})
  subscribe_to_subject subject durable deliver_policy generated = do
    require (λ w. w.js && w.jsm)
    λ w.
        caught
          (λ e. calls (
            nats.consumer_add (stream_of subject) (record {
              durable_name = or_text durable generated;
              deliver_policy = or_text deliver_policy "all";
              filter_subject = some subject;
            })))
          (calls (nats.consumer_info (stream_of subject) (or_text durable generated)) w)
    calls (nats.consume (stream_of subject) (or_text durable generated))

  unfoldable pub create_event_bus : EventBusConfig → Exec (World S) (Unit {0})
  create_event_bus config = do connect config; ensure_streams

abbrev pub new {ℓ} : {S : Type ℓ} → S → World S
new s = record { connection = false; jsm = false; js = false; server = s }
