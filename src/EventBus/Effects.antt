-- ===== src/EventBus/Effects.antt =====
-- The loop of packages/event-bus as the calls of the handler that it makes, one after the other.
use zk_dpp_royalty_protocol.Common.{
  String, Bool, ◌≡◌, refl, sym, ◌∙◌, ap, Option, none, some, List, [], ◌∷◌, ◌++◌,
}
use zk_dpp_royalty_protocol.Common.Results.{Result, ok, err}
use zk_dpp_royalty_protocol.Common.Exec.{Exec, after}
use zk_dpp_royalty_protocol.EventBus.Consumer.{
  Verdict, ack, nak, verdict, take_at, Attempt, process_message, settle, deliver_one, step, run,
  handed_message, handed_of, handed,
}

module _ {ℓ κ ν} {W : Type ℓ} {D : Type κ} {E : Type ν} (parse : String → Result D)
    (handler : E → D → Exec W (Unit {0})) where
  abbrev pub effects : List (E × D) → W → W
  effects [] w = w
  effects ((env, d) ∷ log) w = effects log (handler env d w).1

  settle-world :
      (queue rest : List String) (lost : Bool) (v : Verdict × W)
      → (settle parse handler queue rest lost v).1 ≡ v.1
  settle-world queue rest lost (ack, w) = refl
  settle-world queue rest lost (nak delay, w) = refl

  pub effects-append :
      (log log' : List (E × D)) (w : W) → effects (log ++ log') w ≡ effects log' (effects log w)
  effects-append [] log' w = refl
  effects-append ((env, d) ∷ log) log' w = effects-append log log' (handler env d w).1

  verdict-world : (x : Result (Unit {0}) × W) → (verdict x).1 ≡ x.1
  verdict-world (ok u, w) = refl
  verdict-world (err e, w) = refl

  pub step-effects :
      (a : Attempt E) (queue : List String) (w : W)
      → (step parse handler a (queue, w)).1
        ≡ effects (handed_of parse handler a.env (take_at a.pick queue)) w
  unfolding step process_message
  step-effects a queue w = go (take_at a.pick queue)
    where
      given :
          (r : Result D)
          → (verdict (after (handler a.env) (r, w))).1
            ≡ effects (handed_message parse handler a.env r) w
      given (err e) = refl
      given (ok d) = verdict-world (handler a.env d w)

      go :
          (o : Option (String × List String))
          → (deliver_one parse handler a queue o w).1 ≡ effects (handed_of parse handler a.env o) w
      go none = refl
      go (some (m, rest)) = settle-world queue rest a.ack_lost _ ∙ given (parse m)

  -- The state at the end is what the handler made of what it was given.
  pub run-effects :
      (as' : List (Attempt E)) (queue : List String) (w : W)
      → (run parse handler as' (queue, w)).1 ≡ effects (handed parse handler as' (queue, w)) w
  unfolding run handed
  run-effects [] queue w = refl
  run-effects (a ∷ as') queue w =
      run-effects as' _ _
      ∙ ap (effects (handed parse handler as' (step parse handler a (queue, w))))
          (step-effects a queue w)
      ∙ sym (
          effects-append (handed_of parse handler a.env (take_at a.pick queue))
            (handed parse handler as' (step parse handler a (queue, w))) w)
