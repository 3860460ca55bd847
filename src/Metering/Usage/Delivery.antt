-- ===== src/Metering/Usage/Delivery.antt =====
-- Deliveries of events to the subscriber. The bus delivers an event at least once, so the same event
-- may come again, with another generated row id and at another time.
use zk_dpp_royalty_protocol.Common.{
  ℕ, ◌+◌, String, ◌≡◌, refl, ap, ◌∙◌, ◌⊎◌, inl, inr, Bool, true, false, ◌||◌, List, [], ◌∷◌, ◌++◌,
  arith, ◌==◌, eq_iff, any, if◌then◌else◌, Bool-cases,
}
use zk_dpp_royalty_protocol.Predicates.{Registry}
use zk_dpp_royalty_protocol.Schemas.{VerificationEvent}
use zk_dpp_royalty_protocol.Metering.Types.{VerificationUsage}
use zk_dpp_royalty_protocol.Metering.Usage.{
  Usages, new_usage, violates_unique, record_usage, request_of, on_event,
}

pub record Delivery : Type 0 where
  pub id : String
  pub now : ℕ
  pub event : VerificationEvent

abbrev pub is_of : String → VerificationUsage → Bool
is_of event_id u = u.event_id == event_id

abbrev pub recorded : String → Usages → Bool
recorded event_id rows = any (is_of event_id) rows

-- How many rows an event has.
abbrev pub count : String → Usages → ℕ
count event_id [] = 0
count event_id (u ∷ rows) =
    if is_of event_id u then 1 + count event_id rows else count event_id rows

abbrev pub known_id : String → Usages → Bool
known_id id rows = any (λ u. u.id == id) rows

abbrev pub delivered : String → List Delivery → Bool
delivered event_id ds = any (λ d. d.event.event_id == event_id) ds

abbrev pub bit : Bool → ℕ
bit true = 1
bit false = 0

violates_unique-or :
    (rows : Usages) (id event_id : String)
    → violates_unique rows id event_id ≡ (known_id id rows || recorded event_id rows)
violates_unique-or [] id event_id = refl
violates_unique-or (u ∷ rows) id event_id = ground (arith, violates_unique-or rows id event_id)

any-concat :
    (p : VerificationUsage → Bool) (rows : Usages) (u : VerificationUsage)
    → any p (rows ++ u ∷ []) ≡ (any p rows || p u)
any-concat p [] u = ground arith
any-concat p (v ∷ rows) u = ground (arith, any-concat p rows u)

count-concat :
    (event_id : String) (rows : Usages) (u : VerificationUsage)
    → count event_id (rows ++ u ∷ []) ≡ count event_id rows + bit (is_of event_id u)
count-concat event_id [] u = ground arith
count-concat event_id (v ∷ rows) u = ground (arith, count-concat event_id rows u)

module _ (registry : Registry) where
  unfoldable pub deliver : Delivery → Usages → Usages
  deliver d rows = on_event registry d.id d.now d.event rows

  unfoldable pub deliver_all : List Delivery → Usages → Usages
  deliver_all [] rows = rows
  deliver_all (d ∷ ds) rows = deliver_all ds (deliver d rows)

  -- Every generated id is new when its row is inserted.
  abbrev pub FreshIds : List Delivery → Usages → Type 0
  FreshIds [] rows = Unit
  FreshIds (d ∷ ds) rows = (known_id d.id rows ≡ false) × FreshIds ds (deliver d rows)

  abbrev row : Delivery → VerificationUsage
  row d = new_usage registry d.id d.now (request_of registry d.event)

  module _ (d : Delivery) (rows : Usages) (fresh : known_id d.id rows ≡ false) where
    deliver_again : recorded d.event.event_id rows ≡ true → deliver d rows ≡ rows
    unfolding deliver on_event record_usage request_of
    deliver_again old = ground (arith, violates_unique-or rows d.id d.event.event_id)

    deliver_first : recorded d.event.event_id rows ≡ false → deliver d rows ≡ rows ++ row d ∷ []
    unfolding deliver on_event record_usage request_of
    deliver_first new = ground (arith, violates_unique-or rows d.id d.event.event_id)

    deliver-cases :
        ((recorded d.event.event_id rows ≡ true) × (deliver d rows ≡ rows))
        ⊎ ((recorded d.event.event_id rows ≡ false) × (deliver d rows ≡ rows ++ row d ∷ []))
    deliver-cases = elim (Bool-cases (recorded d.event.event_id rows)) [
      | inl old ↦ inl (old, deliver_again old)
      | inr new ↦ inr (new, deliver_first new)
    ]

  is_of-row :
      (d : Delivery) (event_id : String) → is_of event_id (row d) ≡ (d.event.event_id == event_id)
  unfolding new_usage request_of
  is_of-row d event_id = refl

  module _ (event_id : String) where
    deliver-step :
        (d : Delivery) (rows : Usages)
        → known_id d.id rows ≡ false
        → count event_id rows ≡ bit (recorded event_id rows)
        → (recorded event_id (deliver d rows)
            ≡ (recorded event_id rows || d.event.event_id == event_id))
          × (count event_id (deliver d rows) ≡ bit (recorded event_id (deliver d rows)))
    deliver-step d rows fresh once = elim (deliver-cases d rows fresh) [
      | inl (old, same) ↦ rw same (ground (arith, old, eq_iff d.event.event_id event_id), once)
      | inr (new, longer) ↦ rw longer (
        any-concat (is_of event_id) rows (row d)
            ∙ ap (λ b. recorded event_id rows || b) (is_of-row d event_id),
        ground (
          arith,
          any-concat (is_of event_id) rows (row d),
          count-concat event_id rows (row d),
          is_of-row d event_id,
          eq_iff d.event.event_id event_id,
          new,
          once,
        ),
      )
    ]

    deliver_all-count :
        (ds : List Delivery) (rows : Usages)
        → FreshIds ds rows
        → count event_id rows ≡ bit (recorded event_id rows)
        → count event_id (deliver_all ds rows)
          ≡ bit (recorded event_id rows || delivered event_id ds)
    unfolding deliver_all
    deliver_all-count [] rows fresh once = ground (arith, once)
    deliver_all-count (d ∷ ds) rows (fresh, later) once =
        let (seen, once') = deliver-step d rows fresh once in
        ground (arith, deliver_all-count ds (deliver d rows) later once', seen)

  -- However often and in whatever order events are delivered to an empty table, with generated ids
  -- that are new, an event has exactly one row if it was delivered, and none otherwise.
  pub metered_once :
      (ds : List Delivery) (event_id : String)
      → FreshIds ds []
      → count event_id (deliver_all ds []) ≡ bit (delivered event_id ds)
  metered_once ds event_id fresh = deliver_all-count event_id ds [] fresh refl
