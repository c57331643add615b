-- ===== src/EventStore/Log.antt =====
-- operations-interface/crates/coinext-persistence/src/event_store.rs: the log that a chain of calls of `append`
-- leaves, and its replay.
use Prim.Native.String.{String}
use coinext.Prelude.{
  ◌≡◌, refl, sym, ap, ◌∙◌, subst, none, List, [], ◌∷◌, ◌++◌, inl, inr, Bool-cases, keep, All,
  if◌then◌else◌,
}
use mathlib.Core.Bool.{false≢true}
use coinext.Prelude.Maps.{string_eq}
use coinext.Core.Decimal.{Decimals}
use coinext.Core.Time.{UnixNanos}
use coinext.Model.Ids.{ClientOrderId, StrategyId}
use coinext.Model.Order.{OrderEvent}
use coinext.EventStore.{ok, Row, Codec, append, replay}
use coinext.EventStore.Replay.{followed, replay-append}

module _ ⦃d : Decimals⦄ where
  pub record Call : Type 0 where
    pub strategy_id : StrategyId
    pub client_order_id : ClientOrderId
    pub event : OrderEvent
    pub ts : UnixNanos

  -- The events of one order, in the order of the calls.
  unfoldable pub events_of : ClientOrderId → List Call → List OrderEvent
  events_of id [] = []
  events_of id (c ∷ cs) =
      let rest = events_of id cs in
      if string_eq.beq c.client_order_id id then c.event ∷ rest else rest

  -- The codec reads back an event that it writes.
  pub record Reads (codec : Codec) (event : OrderEvent) : Type 0 where
    pub text : String
    pub written : codec.encode event ≡ ok text
    pub read : codec.decode text ≡ ok event

  module _ (codec : Codec) where
    unfoldable pub logged : List Call → List Row → List Row
    unfolding append
    logged [] rows = rows
    logged (c ∷ cs) rows =
        logged cs (append codec none c.strategy_id c.client_order_id c.event c.ts rows).0

    append_assoc : (xs ys zs : List OrderEvent) → (xs ++ ys) ++ zs ≡ xs ++ (ys ++ zs)
    append_assoc [] ys zs = refl
    append_assoc (x ∷ xs) ys zs = ap (λ us. x ∷ us) (append_assoc xs ys zs)

    append_nil : (xs : List OrderEvent) → xs ++ [] ≡ xs
    append_nil [] = refl
    append_nil (x ∷ xs) = ap (λ us. x ∷ us) (append_nil xs)

    replay-logged_from :
        (id : ClientOrderId) (calls : List Call) (rows : List Row) (events : List OrderEvent)
        → replay codec id rows ≡ ok events
        → All (λ c. Reads codec (Call.event c)) calls
        → replay codec id (logged calls rows) ≡ ok (events ++ events_of id calls)
    unfolding logged events_of followed
    replay-logged_from id [] rows events e h = e ∙ ap ok (sym (append_nil events))
    replay-logged_from id (c ∷ cs) rows events e h =
        let (same, others, number) =
          replay-append codec c.strategy_id c.client_order_id c.event (Reads.text h.0) c.ts rows
            (Reads.written h.0) (Reads.read h.0) in
        let rest : List Row =
          (append codec none c.strategy_id c.client_order_id c.event c.ts rows).0 in
        elim (Bool-cases (string_eq.beq c.client_order_id id)) [
          | inl f ↦ rw f (
              replay-logged_from id cs rest (events ++ (c.event ∷ []))
                (subst (λ i. replay codec i rest ≡ followed codec (replay codec i rows) c.event)
                    ((string_eq.beq_iff c.client_order_id id).0 f) same
                  ∙ ap (λ r. followed codec r c.event) e)
                h.1
              ∙ ap ok (append_assoc events (c.event ∷ []) (events_of id cs)))
          | inr f ↦ rw f (
              replay-logged_from id cs rest events
                (others id (λ p. false≢true (sym f ∙ (string_eq.beq_iff c.client_order_id id).1 p))
                  ∙ e)
                h.1)
        ]

    -- A table that was empty, whatever orders' events were appended in turn, replays for each order exactly its
    -- events in the order of the calls, provided that the codec reads back the events that it wrote.
    pub replay-logged :
        (id : ClientOrderId) (calls : List Call)
        → All (λ c. Reads codec (Call.event c)) calls
        → replay codec id (logged calls []) ≡ ok (events_of id calls)
    unfolding replay keep
    replay-logged id calls h = replay-logged_from id calls [] [] refl h
