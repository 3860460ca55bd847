-- ===== src/EventBus/Consumer.antt =====
-- packages/event-bus/src/index.ts: the loop that `subscribe` and `subscribeToSubject` start, over
-- the messages of a durable consumer. A message is redelivered until it is acknowledged. A schedule
-- says which of the waiting messages each delivery takes, what its handler reads from outside, and
-- whether NATS loses the acknowledgement. `JSON.parse(sc.decode(msg.data))` is an argument, for the
-- type that the subscriber expects. The stream keeps its messages here: the limits with which it is
-- made (max_age, max_msgs, max_bytes) drop the oldest messages, acknowledged or not, and are left
-- out.
use zk_dpp_royalty_protocol.Common.{
  ℕ, zero, suc, String, Bool, Option, none, some, List, [], ◌∷◌, ◌++◌, if◌then◌else◌,
}
use zk_dpp_royalty_protocol.Common.Results.{Result, ok, err}
use zk_dpp_royalty_protocol.Common.Exec.{Exec, after}

pub data Verdict : Type 0 where
  ack : Verdict
  nak : (delay : ℕ) → Verdict

-- The end of the loop's body: an acknowledgement, or a delayed retry of what has thrown.
abbrev pub verdict {ℓ} : {W : Type ℓ} → Result (Unit {0}) × W → Verdict × W
verdict (ok u, w) = (ack, w)
verdict (err e, w) = (nak 5000, w)

abbrev pub put_back : String → Option (String × List String) → Option (String × List String)
put_back m none = none
put_back m (some (x, rest)) = some (x, m ∷ rest)

-- One of the waiting messages, and the others.
abbrev pub take_at : ℕ → List String → Option (String × List String)
take_at n [] = none
take_at zero (m ∷ queue) = some (m, queue)
take_at (suc n) (m ∷ queue) = put_back m (take_at n queue)

pub record Attempt {ℓ} (E : Type ℓ) : Type ℓ where
  pub pick : ℕ
  pub env : E
  pub ack_lost : Bool

module _ {ℓ κ ν} {W : Type ℓ} {D : Type κ} {E : Type ν} (parse : String → Result D)
    (handler : E → D → Exec W (Unit {0})) where
  unfoldable pub process_message : E → String → W → Verdict × W
  process_message env m w = verdict (after (handler env) (parse m, w))

  -- What is waiting after a delivery.
  abbrev pub settle : (queue rest : List String) (ack_lost : Bool) → Verdict × W → List String × W
  settle queue rest ack_lost (ack, w) = (if ack_lost then queue else rest, w)
  settle queue rest ack_lost (nak delay, w) = (queue, w)

  abbrev pub deliver_one :
      Attempt E → (queue : List String) → Option (String × List String) → W → List String × W
  deliver_one a queue none w = (queue, w)
  deliver_one a queue (some (m, rest)) w = settle queue rest a.ack_lost (process_message a.env m w)

  unfoldable pub step : Attempt E → List String × W → List String × W
  step a (queue, w) = deliver_one a queue (take_at a.pick queue) w

  unfoldable pub run : List (Attempt E) → List String × W → List String × W
  run [] s = s
  run (a ∷ as') s = run as' (step a s)

  abbrev pub handed_message : E → Result D → List (E × D)
  handed_message env (err e) = []
  handed_message env (ok d) = (env, d) ∷ []

  abbrev pub handed_of : E → Option (String × List String) → List (E × D)
  handed_of env none = []
  handed_of env (some (m, rest)) = handed_message env (parse m)

  -- What the handler was given, in order.
  unfoldable pub handed : List (Attempt E) → List String × W → List (E × D)
  handed [] s = []
  handed (a ∷ as') s = handed_of a.env (take_at a.pick s.0) ++ handed as' (step a s)
