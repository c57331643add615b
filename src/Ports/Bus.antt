-- ===== src/Ports/Bus.antt =====
-- foundation/crates/coinext-ports/src/bus.rs and operations-interface/crates/coinext-bus/src/lib.rs: the
-- payloads and topics, and the in-process bus. A handler is a function on a state of its own, which the
-- bus keeps beside it; handlers do not publish.
pub mod Delivery
use coinext.Prelude.{
  ℕ, ◌+◌, ◌%◌, ◌^◌, Bool, true, false, not, ◌&&◌, List, [], ◌∷◌, ◌++◌, keep, nat_beq, if◌then◌else◌,
}
use coinext.Prelude.Maps.{◌==◌, string_eq}
use coinext.Core.Clock.{TimerEvent}
use coinext.Model.Ids.{InstrumentId, StrategyId, instrument_id_eq}
use coinext.Model.MarketData.{
  QuoteTick, TradeTick, Bar, OrderBookDelta, BarType, BarSpec, BarAggregation, PriceType,
  AggregationSource,
}
use coinext.Model.Order.{OrderEvent}
use coinext.Model.Fill.{Fill}

pub data CtrlMsg : Type 0 where
  kill_switch : Bool → CtrlMsg

pub data BusMsg : Type 0 where
  quote : QuoteTick → BusMsg
  trade : TradeTick → BusMsg
  bar : Bar → BusMsg
  delta : OrderBookDelta → BusMsg
  order : OrderEvent → BusMsg
  fill : Fill → BusMsg
  timer : TimerEvent → BusMsg
  ctrl : CtrlMsg → BusMsg

pub data Topic : Type 0 where
  quote trade delta : InstrumentId → Topic
  bar : BarType → Topic
  order_event fill timer : StrategyId → Topic
  ctrl : Topic

abbrev aggregation_index : BarAggregation → ℕ
aggregation_index BarAggregation.tick = 0
aggregation_index BarAggregation.second = 1
aggregation_index BarAggregation.minute = 2
aggregation_index BarAggregation.hour = 3
aggregation_index BarAggregation.day = 4

abbrev price_type_index : PriceType → ℕ
price_type_index PriceType.bid_px = 0
price_type_index PriceType.ask_px = 1
price_type_index PriceType.mid_px = 2
price_type_index PriceType.last_px = 3

abbrev source_index : AggregationSource → ℕ
source_index AggregationSource.internal = 0
source_index AggregationSource.external = 1

abbrev pub bar_type_beq : BarType → BarType → Bool
bar_type_beq a b =
    a.instrument_id == b.instrument_id
    && (nat_beq a.spec.step b.spec.step
        && (nat_beq (aggregation_index a.spec.aggregation) (aggregation_index b.spec.aggregation)
            && (nat_beq (price_type_index a.spec.price_type) (price_type_index b.spec.price_type)
                && nat_beq (source_index a.source) (source_index b.source))))

-- The derived equality.
abbrev pub topic_beq : Topic → Topic → Bool
topic_beq (Topic.quote a) (Topic.quote b) = a == b
topic_beq (Topic.trade a) (Topic.trade b) = a == b
topic_beq (Topic.bar a) (Topic.bar b) = bar_type_beq a b
topic_beq (Topic.delta a) (Topic.delta b) = a == b
topic_beq (Topic.order_event a) (Topic.order_event b) = a == b
topic_beq (Topic.fill a) (Topic.fill b) = a == b
topic_beq (Topic.timer a) (Topic.timer b) = a == b
topic_beq Topic.ctrl Topic.ctrl = true
topic_beq _ _ = false

module _ (S : Type 0) where
  pub record Sub : Type 0 where
    pub id : ℕ
    pub topic : Topic
    pub handler : BusMsg → S → S
    pub state : S

  pub record InProcBus : Type 0 where
    pub next_id : ℕ
    pub subs : List Sub

  unfoldable pub new : InProcBus
  new = record { next_id = 0; subs = [] }

  abbrev pub deliver : Topic → BusMsg → Sub → Sub
  deliver topic msg s =
      if topic_beq s.topic topic then record s { state = s.handler msg s.state } else s

  unfoldable pub publish_loop : Topic → BusMsg → List Sub → List Sub
  publish_loop topic msg [] = []
  publish_loop topic msg (s ∷ ss) = deliver topic msg s ∷ publish_loop topic msg ss

  unfoldable pub publish : Topic → BusMsg → InProcBus → InProcBus
  unfolding publish_loop
  publish topic msg b = record b { subs = publish_loop topic msg b.subs }

  unfoldable pub subscribe : Topic → (BusMsg → S → S) → S → InProcBus → InProcBus × ℕ
  subscribe topic handler state b =
      let id = (b.next_id + 1) % 2 ^ 64 in
      let s : Sub = record { id = id; topic = topic; handler = handler; state = state } in
      (record { next_id = id; subs = b.subs ++ (s ∷ []) }, id)

  unfoldable pub unsubscribe : ℕ → InProcBus → InProcBus
  unfolding keep
  unsubscribe id b = record b { subs = keep (λ s. not (nat_beq s.id id)) b.subs }
