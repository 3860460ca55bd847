-- ===== src/EventBus/Delivery.antt =====
-- What the loop of packages/event-bus guarantees: no message is dropped before its handler returned.
use zk_dpp_royalty_protocol.Common.{
  ℕ, zero, suc, String, Bool, true, false, ◌≡◌, refl, sym, ◌∙◌, ap, subst, ◌⊎◌, inl, inr, Option,
  none, some, List, [], ◌∷◌, ◌++◌, In, here, there, In-nil, if◌then◌else◌,
}
use zk_dpp_royalty_protocol.Common.Results.{Result, ok, err}
use zk_dpp_royalty_protocol.Common.Exec.{Exec, after}
use zk_dpp_royalty_protocol.EventBus.Effects.{effects, effects-append, step-effects}
use zk_dpp_royalty_protocol.EventBus.Consumer.{
  Verdict, ack, nak, verdict, put_back, take_at, Attempt, process_message, settle, deliver_one,
  step, run, handed_message, handed_of, handed,
}

pub In-append_left {ℓ} : {A : Type ℓ} (a : A) (xs ys : List A) → In a xs → In a (xs ++ ys)
In-append_left a [] ys m = absurd (In-nil m)
In-append_left a (x ∷ xs) ys (here e) = here e
In-append_left a (x ∷ xs) ys (there m) = there (In-append_left a xs ys m)

append_assoc {ℓ} : {A : Type ℓ} (xs ys zs : List A) → (xs ++ ys) ++ zs ≡ xs ++ (ys ++ zs)
append_assoc [] ys zs = refl
append_assoc (x ∷ xs) ys zs = ap (λ l. x ∷ l) (append_assoc xs ys zs)

pub In-append_right {ℓ} : {A : Type ℓ} (a : A) (xs ys : List A) → In a ys → In a (xs ++ ys)
In-append_right a [] ys m = m
In-append_right a (x ∷ xs) ys m = there (In-append_right a xs ys m)

-- A waiting message is the one that is taken, or still waits.
abbrev Remains : String → Option (String × List String) → Type 0
Remains m none = Unit
Remains m (some (x, rest)) = (m ≡ x) ⊎ In m rest

put_back-Remains_here : (m : String) (o : Option (String × List String)) → Remains m (put_back m o)
put_back-Remains_here m none = tt
put_back-Remains_here m (some (x, rest)) = inr (here refl)

put_back-Remains :
    (m y : String) (o : Option (String × List String)) → Remains m o → Remains m (put_back y o)
put_back-Remains m y none h = tt
put_back-Remains m y (some (x, rest)) (inl e) = inl e
put_back-Remains m y (some (x, rest)) (inr i) = inr (there i)

take_at-Remains :
    (n : ℕ) (queue : List String) (m : String) → In m queue → Remains m (take_at n queue)
take_at-Remains n [] m i = absurd (In-nil i)
take_at-Remains zero (y ∷ queue) m (here e) = inl e
take_at-Remains zero (y ∷ queue) m (there i) = inr i
take_at-Remains (suc n) (y ∷ queue) m (here e) =
    subst (λ z. Remains m (put_back z (take_at n queue))) e
      (put_back-Remains_here m (take_at n queue))
take_at-Remains (suc n) (y ∷ queue) m (there i) =
    put_back-Remains m y (take_at n queue) (take_at-Remains n queue m i)

module _ {ℓ κ ν} {W : Type ℓ} {D : Type κ} {E : Type ν} (parse : String → Result D)
    (handler : E → D → Exec W (Unit {0})) where
  -- The message was parsed and given to the handler, which returned without an error in the state
  -- that the earlier calls had left.
  pub record IsHandled (m : String) (start : W) (log : List (E × D)) : Type (ℓ ⊔ κ ⊔ ν) where
    pub env : E
    pub d : D
    pub earlier : List (E × D)
    pub later : List (E × D)
    pub parsed : parse m ≡ ok d
    pub given : log ≡ earlier ++ (env, d) ∷ later
    pub returned : (handler env d (effects parse handler earlier start)).0 ≡ ok tt

  IsHandled-append :
      (m : String) (w : W) (log log' : List (E × D))
      → IsHandled m (effects parse handler log w) log'
      → IsHandled m w (log ++ log')
  IsHandled-append m w log log' h = record {
    env = h.env;
    d = h.d;
    earlier = log ++ h.earlier;
    later = h.later;
    parsed = h.parsed;
    given = ap (λ l. log ++ l) h.given ∙ sym (append_assoc log h.earlier ((h.env, h.d) ∷ h.later));
    returned =
        ap (λ v. (handler h.env h.d v).0) (effects-append parse handler log h.earlier w)
        ∙ h.returned;
  }

  IsHandled-first :
      (m : String) (w : W) (log log' : List (E × D))
      → IsHandled m w log
      → IsHandled m w (log ++ log')
  IsHandled-first m w log log' h = record {
    env = h.env;
    d = h.d;
    earlier = h.earlier;
    later = h.later ++ log';
    parsed = h.parsed;
    given = ap (λ l. l ++ log') h.given ∙ append_assoc h.earlier ((h.env, h.d) ∷ h.later) log';
    returned = h.returned;
  }

  -- What becomes of a waiting message in one delivery.
  abbrev Fate : String → Attempt E → (queue : List String) → W → Type (ℓ ⊔ κ ⊔ ν)
  Fate m a queue w =
      In m (step parse handler a (queue, w)).0
      ⊎ IsHandled m w (handed_of parse handler a.env (take_at a.pick queue))

  module _ (a : Attempt E) (queue : List String) (w : W) (m : String) (waits : In m queue) where
    abbrev Settled : List String → Result D → Verdict × W → Type (ℓ ⊔ κ ⊔ ν)
    Settled rest r v =
        In m (settle parse handler queue rest a.ack_lost v).0
        ⊎ IsHandled m w (handed_message parse handler a.env r)

    -- The message that was taken: it stays unless the handler has returned.
    taken-Settled :
        (rest : List String) (r : Result D)
        → parse m ≡ r
        → Settled rest r (verdict (after (handler a.env) (r, w)))
    taken-Settled rest (err e) p = inl waits
    taken-Settled rest (ok d) p = go (handler a.env d w) refl
      where
        go : (x : Result (Unit {0}) × W) → handler a.env d w ≡ x → Settled rest (ok d) (verdict x)
        go (err e, w') h = inl waits
        go (ok u, w') h = inr (record {
          env = a.env;
          d = d;
          earlier = [];
          later = [];
          parsed = p;
          given = refl;
          returned = ap (λ x. x.0) h;
        })

    -- A message that was not taken stays.
    other-Settled :
        (rest : List String) (r : Result D) (v : Verdict × W) → In m rest → Settled rest r v
    other-Settled rest r (nak delay, w') i = inl waits
    other-Settled rest r (ack, w') i = inl (go a.ack_lost)
      where
        go : (b : Bool) → In m (if b then queue else rest)
        go true = waits
        go false = i

    step-Fate : Fate m a queue w
    unfolding step process_message
    step-Fate = go (take_at a.pick queue) (take_at-Remains a.pick queue m waits)
      where
        go :
            (o : Option (String × List String))
            → Remains m o
            → In m (deliver_one parse handler a queue o w).0
              ⊎ IsHandled m w (handed_of parse handler a.env o)
        go none h = inl waits
        go (some (x, rest)) (inr i) = other-Settled rest (parse x) _ i
        go (some (x, rest)) (inl e) =
            subst (λ y. Settled rest (parse y) (verdict (after (handler a.env) (parse y, w)))) e
              (taken-Settled rest (parse m) refl)

  -- Whatever the schedule, as long as the stream's limits drop no message: a message that waits
  -- still waits at the end, or it was parsed and given to the handler, which returned without an
  -- error in the state that the earlier calls had left.
  pub waiting-Fate :
      (as' : List (Attempt E)) (queue : List String) (w : W) (m : String)
      → In m queue
      → In m (run parse handler as' (queue, w)).0
        ⊎ IsHandled m w (handed parse handler as' (queue, w))
  unfolding run handed
  waiting-Fate [] queue w m i = inl i
  waiting-Fate (a ∷ as') queue w m i = elim (step-Fate a queue w m i) [
    | inr h ↦ inr (IsHandled-first m w _ _ h)
    | inl still ↦
        let s = step parse handler a (queue, w) in
        elim (waiting-Fate as' s.0 s.1 m still) [
          | inl j ↦ inl j
          | inr h ↦ inr (
              IsHandled-append m w (handed_of parse handler a.env (take_at a.pick queue))
                (handed parse handler as' s)
                (subst (λ v. IsHandled m v (handed parse handler as' s))
                  (step-effects parse handler a queue w) h))
        ]
  ]
