-- ===== src/Ports/Bus/Delivery.antt =====
-- operations-interface/crates/coinext-bus/src/lib.rs: what a subscription hears over a sequence of calls.
use coinext.Prelude.{
  ℕ, ◌≡◌, ◌≢◌, ◌↔◌, ◌∙◌, subst, sym, not, true, Option, none, some, List, [], ◌∷◌, ◌++◌, arith,
  keep, nat_beq, All, if◌then◌else◌, Bool-cases, inl, inr,
}
use mathlib.Core.Bool.{false≢true}
use coinext.Model.Ids.{instrument_id_eq}
use coinext.Prelude.Maps.{string_eq}
use coinext.Model.MarketData.{BarType, BarAggregation, PriceType, AggregationSource}
use coinext.Ports.Bus.{
  BusMsg, Topic, topic_beq, bar_type_beq, aggregation_index, price_type_index, source_index, Sub,
  InProcBus, publish_loop, publish, subscribe, unsubscribe,
}

aggregation_index_inj : (a b : BarAggregation) → aggregation_index a ≡ aggregation_index b → a ≡ b
aggregation_index_inj a b e = ground (arith, e)

price_type_index_inj : (a b : PriceType) → price_type_index a ≡ price_type_index b → a ≡ b
price_type_index_inj a b e = ground (arith, e)

source_index_inj : (a b : AggregationSource) → source_index a ≡ source_index b → a ≡ b
source_index_inj a b e = ground (arith, e)

bar_type_beq_iff : (a b : BarType) → (bar_type_beq a b ≡ true) ↔ (a ≡ b)
bar_type_beq_iff a b = ground (
  arith,
  instrument_id_eq.beq_iff a.instrument_id b.instrument_id,
  aggregation_index_inj a.spec.aggregation b.spec.aggregation,
  price_type_index_inj a.spec.price_type b.spec.price_type,
  source_index_inj a.source b.source,
)

-- The derived equality of topics is equality.
topic_beq_iff : (a b : Topic) → (topic_beq a b ≡ true) ↔ (a ≡ b)
topic_beq_iff (Topic.quote a) (Topic.quote b) = ground (arith, instrument_id_eq.beq_iff a b)
topic_beq_iff (Topic.trade a) (Topic.trade b) = ground (arith, instrument_id_eq.beq_iff a b)
topic_beq_iff (Topic.bar a) (Topic.bar b) = ground (arith, bar_type_beq_iff a b)
topic_beq_iff (Topic.delta a) (Topic.delta b) = ground (arith, instrument_id_eq.beq_iff a b)
topic_beq_iff (Topic.order_event a) (Topic.order_event b) = ground (arith, string_eq.beq_iff a b)
topic_beq_iff (Topic.fill a) (Topic.fill b) = ground (arith, string_eq.beq_iff a b)
topic_beq_iff (Topic.timer a) (Topic.timer b) = ground (arith, string_eq.beq_iff a b)
topic_beq_iff a b = ground arith

module _ (S : Type 0) where
  pub data Call : Type 0 where
    publishes : Topic → BusMsg → Call
    subscribes : Topic → (BusMsg → S → S) → S → Call
    unsubscribes : ℕ → Call

  unfoldable pub step : Call → InProcBus S → InProcBus S
  unfolding publish subscribe unsubscribe
  step (publishes topic msg) b = publish S topic msg b
  step (subscribes topic handler state) b = (subscribe S topic handler state b).0
  step (unsubscribes id) b = unsubscribe S id b

  unfoldable pub run : List Call → InProcBus S → InProcBus S
  unfolding step
  run [] b = b
  run (call ∷ calls) b = run calls (step call b)

  -- The subscription under an id.
  abbrev pub find : ℕ → List (Sub S) → Option (Sub S)
  find id [] = none
  find id (s ∷ ss) = if nat_beq s.id id then some s else find id ss

  -- A handler hears each message of its topic once, in turn, and nothing else.
  pub data Heard (topic : Topic) (handler : BusMsg → S → S) : List Call → S → S → Type 0 where
    silent : (x : S) → Heard topic handler [] x x
    hears :
        (msg : BusMsg) (calls : List Call) (x y : S)
        → Heard topic handler calls (handler msg x) y
        → Heard topic handler (publishes topic msg ∷ calls) x y
    misses :
        (t : Topic) (msg : BusMsg) (calls : List Call) (x y : S)
        → t ≢ topic
        → Heard topic handler calls x y
        → Heard topic handler (publishes t msg ∷ calls) x y
    joined :
        (t : Topic) (h : BusMsg → S → S) (z : S) (calls : List Call) (x y : S)
        → Heard topic handler calls x y
        → Heard topic handler (subscribes t h z ∷ calls) x y
    left :
        (id : ℕ) (calls : List Call) (x y : S)
        → Heard topic handler calls x y
        → Heard topic handler (unsubscribes id ∷ calls) x y

  unfoldable pub Keeps : ℕ → Call → Type 0
  Keeps id (publishes topic msg) = Unit
  Keeps id (subscribes topic handler state) = Unit
  Keeps id (unsubscribes j) = j ≢ id

  abbrev with_state : Sub S → S → Sub S
  with_state s x = record s { state = x }

  find-hears :
      (topic : Topic) (msg : BusMsg) (id : ℕ) (s : Sub S) (ss : List (Sub S))
      → s.topic ≡ topic
      → find id ss ≡ some s
      → find id (publish_loop S topic msg ss) ≡ some (with_state s (s.handler msg s.state))
  unfolding publish_loop
  find-hears topic msg id s [] t e = absurd (ground (arith, e))
  find-hears topic msg id s (r ∷ ss) t e =
      ground (arith, e, t, topic_beq_iff s.topic topic, find-hears topic msg id s ss t)

  find-misses :
      (topic : Topic) (msg : BusMsg) (id : ℕ) (s : Sub S) (ss : List (Sub S))
      → topic ≢ s.topic
      → find id ss ≡ some s
      → find id (publish_loop S topic msg ss) ≡ some s
  unfolding publish_loop
  find-misses topic msg id s [] t e = absurd (ground (arith, e))
  find-misses topic msg id s (r ∷ ss) t e =
      ground (arith, e, t, topic_beq_iff s.topic topic, find-misses topic msg id s ss t)

  find-append :
      (id : ℕ) (s : Sub S) (ss rs : List (Sub S))
      → find id ss ≡ some s
      → find id (ss ++ rs) ≡ some s
  find-append id s [] rs e = absurd (ground (arith, e))
  find-append id s (r ∷ ss) rs e = ground (arith, e, find-append id s ss rs)

  find-keep :
      (id j : ℕ) (s : Sub S) (ss : List (Sub S))
      → j ≢ id
      → find id ss ≡ some s
      → find id (keep (λ s. not (nat_beq s.id j)) ss) ≡ some s
  unfolding keep
  find-keep id j s [] n e = absurd (ground (arith, e))
  find-keep id j s (r ∷ ss) n e = ground (arith, n, e, find-keep id j s ss n)

  -- Over any publications, subscriptions, and unsubscriptions of others, a subscription stays under its id
  -- with its topic and handler, and its handler hears each message of its topic once, in the order of the
  -- calls, and no message of another topic.
  pub run-Heard :
      (calls : List Call) (id : ℕ) (s : Sub S) (b : InProcBus S)
      → find id b.subs ≡ some s
      → All (Keeps id) calls
      → (x : S) × (find id (InProcBus.subs (run calls b)) ≡ some (record s { state = x }))
        × Heard s.topic s.handler calls s.state x
  unfolding run publish subscribe unsubscribe Keeps
  run-Heard [] id s b e k = (s.state, e, Heard.silent s.state)
  run-Heard (publishes topic msg ∷ calls) id s b e k = elim (Bool-cases (topic_beq s.topic topic)) [
    | inl same ↦
        let t : s.topic ≡ topic = (topic_beq_iff s.topic topic).0 same in
        let (x, found, heard) =
          run-Heard calls id (with_state s (s.handler msg s.state)) (publish S topic msg b)
            (find-hears topic msg id s b.subs t e) k.1 in
        (
          x,
          found,
          subst (λ u. Heard s.topic s.handler (publishes u msg ∷ calls) s.state x) t
              (Heard.hears msg calls s.state x heard),
        )
    | inr differs ↦
        let t : topic ≢ s.topic =
          λ p. false≢true (sym differs ∙ (topic_beq_iff s.topic topic).1 (sym p)) in
        let (x, found, heard) =
          run-Heard calls id s (publish S topic msg b) (find-misses topic msg id s b.subs t e)
            k.1 in
        (x, found, Heard.misses topic msg calls s.state x t heard)
  ]
  run-Heard (subscribes topic handler state ∷ calls) id s b e k =
      let (x, found, heard) =
        run-Heard calls id s (subscribe S topic handler state b).0 (find-append id s b.subs _ e)
          k.1 in
      (x, found, Heard.joined topic handler state calls s.state x heard)
  run-Heard (unsubscribes j ∷ calls) id s b e k =
      let (x, found, heard) =
        run-Heard calls id s (unsubscribe S j b) (find-keep id j s b.subs k.0 e) k.1 in
      (x, found, Heard.left j calls s.state x heard)
