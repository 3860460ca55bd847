-- ===== src/EventBus/Metering.antt =====
-- services/metering-billing/src/index.ts behind the loop of packages/event-bus: the handler as the
-- bus calls it, with the error of its query, and what it makes of a durable consumer's messages.
use zk_dpp_royalty_protocol.Common.{
  sym, ℕ, String, true, false, ◌≡◌, refl, ◌∙◌, ap, subst, ◌⊎◌, inl, inr, Option, none, some, List,
  [], ◌∷◌, In, here, there, In-nil, All, All-append, arith, eq_refl,
}
use zk_dpp_royalty_protocol.Common.Results.{Result, ok, err}
use zk_dpp_royalty_protocol.Common.Exec.{Exec, pure, caught}
use zk_dpp_royalty_protocol.Predicates.{Registry}
use zk_dpp_royalty_protocol.Schemas.{VerificationEvent}
use zk_dpp_royalty_protocol.Metering.Types.{VerificationUsage}
use zk_dpp_royalty_protocol.Metering.Usage.{Usages, record_usage, request_of, on_event}
use zk_dpp_royalty_protocol.Metering.Usage.Delivery.{
  Delivery, bit, count, delivered, deliver, deliver_all, FreshIds, metered_once,
}
use zk_dpp_royalty_protocol.EventBus.Consumer.{
  Attempt, take_at, step, run, handed_message, handed_of, handed, process_message, ack,
}
use zk_dpp_royalty_protocol.EventBus.Effects.{effects, run-effects}
use zk_dpp_royalty_protocol.EventBus.Delivery.{In-append_right, waiting-Fate, IsHandled}

-- What one call of the handler reads from outside: the generated id, the clock of the database, and
-- the error of the query, if it has one.
pub record Env : Type 0 where
  pub id : String
  pub now : ℕ
  pub fault : Option String

abbrev dropped : Result VerificationUsage × Usages → Result (Unit {0}) × Usages
dropped (ok u, rows) = (ok tt, rows)
dropped (err e, rows) = (err e, rows)

module _ (registry : Registry) where
  -- The `try` block.
  abbrev record_event : Env → VerificationEvent → Option String → Exec Usages (Unit {0})
  record_event env event none =
      λ rows. dropped (record_usage registry env.id env.now (request_of registry event) rows)
  record_event env event (some e) = λ rows. (err e, rows)

  -- The `catch` block only logs.
  unfoldable pub handler : Env → VerificationEvent → Exec Usages (Unit {0})
  handler env event rows = caught (λ e. pure tt) (record_event env event env.fault rows)

  handler_lem :
      (env : Env) (event : VerificationEvent) (rows : Usages)
      → env.fault ≡ none
      → (handler env event rows).1 ≡ on_event registry env.id env.now event rows
  unfolding handler on_event
  handler_lem env event rows none_is =
      rw none_is (go (record_usage registry env.id env.now (request_of registry event) rows))
    where
      go : (x : Result VerificationUsage × Usages) → (caught (λ e. pure tt) (dropped x)).1 ≡ x.1
      go (ok u, rows') = refl
      go (err e, rows') = refl

  -- The handler never throws.
  pub handler-returns :
      (env : Env) (event : VerificationEvent) (rows : Usages) → (handler env event rows).0 ≡ ok tt
  unfolding handler
  handler-returns env event rows = go (record_event env event env.fault rows)
    where
      go : (x : Result (Unit {0}) × Usages) → (caught (λ e. pure tt) x).0 ≡ ok tt
      go (ok u, rows') = refl
      go (err e, rows') = refl

  abbrev pub to_deliveries : List (Env × VerificationEvent) → List Delivery
  to_deliveries [] = []
  to_deliveries ((env, event) ∷ log) =
      record { id = env.id; now = env.now; event = event } ∷ to_deliveries log

  abbrev IsWell : Env × VerificationEvent → Type 0
  IsWell (env, event) = env.fault ≡ none

  effects-deliver_all :
      (log : List (Env × VerificationEvent)) (rows : Usages)
      → All IsWell log
      → effects (λ m. err "") handler log rows ≡ deliver_all registry (to_deliveries log) rows
  unfolding deliver_all deliver
  effects-deliver_all [] rows h = refl
  effects-deliver_all ((env, event) ∷ log) rows (well, h) =
      rw (handler_lem env event rows well)
        (effects-deliver_all log (on_event registry env.id env.now event rows) h)

  delivered-to_deliveries :
      (env : Env) (event : VerificationEvent) (log : List (Env × VerificationEvent))
      → In (env, event) log
      → delivered event.event_id (to_deliveries log) ≡ true
  delivered-to_deliveries env event [] i = absurd (In-nil i)
  delivered-to_deliveries env event (x ∷ log) (here e) =
      ground (arith, eq_refl event.event_id, ap (λ y. y.1.event_id) e)
  delivered-to_deliveries env event (x ∷ log) (there i) =
      ground (arith, delivered-to_deliveries env event log i)

  module _ (parse : String → Result VerificationEvent) where
    handed_of-IsWell :
        (env : Env) (o : Option (String × List String))
        → env.fault ≡ none
        → All IsWell (handed_of parse handler env o)
    handed_of-IsWell env none well = tt
    handed_of-IsWell env (some (m, rest)) well = go (parse m)
      where
        go : (r : Result VerificationEvent) → All IsWell (handed_message parse handler env r)
        go (err e) = tt
        go (ok event) = (well, tt)

    handed-IsWell :
        (as' : List (Attempt Env)) (s : List String × Usages)
        → All (λ a. a.env.fault ≡ none) as'
        → All IsWell (handed parse handler as' s)
    unfolding handed
    handed-IsWell [] s h = tt
    handed-IsWell (a ∷ as') s (well, h) =
        All-append IsWell (handed_of parse handler a.env (take_at a.pick s.0)) _
          (handed_of-IsWell a.env (take_at a.pick s.0) well)
          (handed-IsWell as' (step parse handler a s) h)

    -- However often, in whatever order and with however many lost acknowledgements the bus delivers
    -- the messages of the consumer, from an empty table of usages on: if no query fails, the
    -- generated ids are new and none of the messages waits in the end, then each event that was
    -- among them has exactly one usage.
    pub metered_exactly_once :
        (as' : List (Attempt Env)) (queue : List String) (m : String) (event : VerificationEvent)
        → All (λ a. a.env.fault ≡ none) as'
        → FreshIds registry (to_deliveries (handed parse handler as' (queue, []))) []
        → (run parse handler as' (queue, [])).0 ≡ []
        → In m queue
        → parse m ≡ ok event
        → count event.event_id (run parse handler as' (queue, [])).1 ≡ 1
    metered_exactly_once as' queue m event well fresh done i p =
        let log = handed parse handler as' (queue, []) in
        let rows =
          run-effects parse handler as' queue []
          ∙ effects-deliver_all log [] (handed-IsWell as' (queue, []) well) in
        ap (count event.event_id) rows
        ∙ metered_once registry (to_deliveries log) event.event_id fresh
        ∙ ap bit (was_delivered (waiting-Fate parse handler as' queue [] m i))
      where
        was_delivered :
            In m (run parse handler as' (queue, [])).0
              ⊎ IsHandled parse handler m [] (handed parse handler as' (queue, []))
            → delivered event.event_id (to_deliveries (handed parse handler as' (queue, []))) ≡ true
        was_delivered (inl still) = absurd (In-nil (subst (λ q. In m q) done still))
        was_delivered (inr h) =
            let log = handed parse handler as' (queue, []) in
            let same : h.d ≡ event = cc (h.parsed, p) in
            delivered-to_deliveries h.env event log (
              subst (λ l. In {A = Env × VerificationEvent} (h.env, event) l) (sym h.given)
                (In-append_right (h.env, event) h.earlier ((h.env, h.d) ∷ h.later)
                  (here (ap (λ e. (h.env, e)) (sym same)))))

    failed-process_message :
        (env : Env) (m e : String) (event : VerificationEvent) (rows : Usages)
        → env.fault ≡ some e
        → parse m ≡ ok event
        → process_message parse handler env m rows ≡ (ack, rows)
    unfolding process_message handler
    failed-process_message env m e event rows fault p = rw (p, handler, fault) refl

    -- A query that fails in the only delivery loses the event: it is acknowledged without a usage,
    -- and no later schedule brings one.
    pub failed-IsLost :
        (a : Attempt Env) (as' : List (Attempt Env)) (m e : String) (event : VerificationEvent)
        (rows : Usages)
        → a.pick ≡ 0
        → a.ack_lost ≡ false
        → a.env.fault ≡ some e
        → parse m ≡ ok event
        → run parse handler (a ∷ as') (m ∷ [], rows) ≡ ([], rows)
    unfolding run step
    failed-IsLost a as' m e event rows zero_pick kept fault p =
        rw (zero_pick, kept, failed-process_message a.env m e event rows fault p) (idle as')
      where
        idle : (bs : List (Attempt Env)) → run parse handler bs ([], rows) ≡ ([], rows)
        idle [] = refl
        idle (b ∷ bs) = idle bs
