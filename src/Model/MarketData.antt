-- ===== src/Model/MarketData.antt =====
-- foundation/crates/coinext-model/src/market_data.rs: normalized market data.
pub mod Mid
use coinext.Prelude.{ℕ}
use coinext.Prelude.Int.{saturate, half_ℤ, ◌+ℤ◌}
use coinext.Core.Error.{unwrap_or}
use coinext.Core.Price
use coinext.Core.Price.{Price}
use coinext.Core.Quantity.{Quantity}
use coinext.Core.Time.{UnixNanos}
use coinext.Model.Enums.{BookAction, OrderSide}
use coinext.Model.Ids.{InstrumentId, TradeId}

pub record QuoteTick : Type 0 where
  pub instrument_id : InstrumentId
  pub bid : Price
  pub ask : Price
  pub bid_size : Quantity
  pub ask_size : Quantity
  pub ts_event : UnixNanos
  pub ts_init : UnixNanos

-- The mid price, at the bid's precision.
unfoldable pub mid : QuoteTick → Price
mid q =
    unwrap_or (Price.from_raw (half_ℤ (saturate 63 (q.bid.raw +ℤ q.ask.raw))) q.bid.precision) q.bid

pub record TradeTick : Type 0 where
  pub instrument_id : InstrumentId
  pub price : Price
  pub size : Quantity
  pub aggressor : OrderSide
  pub trade_id : TradeId
  pub ts_event : UnixNanos
  pub ts_init : UnixNanos

pub record OrderBookDelta : Type 0 where
  pub instrument_id : InstrumentId
  pub action : BookAction
  pub side : OrderSide
  pub price : Price
  pub size : Quantity
  pub sequence : ℕ
  pub ts_event : UnixNanos
  pub ts_init : UnixNanos

pub data BarAggregation : Type 0 where
  tick second minute hour day : BarAggregation

pub data PriceType : Type 0 where
  bid_px ask_px mid_px last_px : PriceType

pub data AggregationSource : Type 0 where
  internal external : AggregationSource

pub record BarSpec : Type 0 where
  pub step : ℕ
  pub aggregation : BarAggregation
  pub price_type : PriceType

pub record BarType : Type 0 where
  pub instrument_id : InstrumentId
  pub spec : BarSpec
  pub source : AggregationSource

pub record Bar : Type 0 where
  pub bar_type : BarType
  pub open_px : Price
  pub high : Price
  pub low : Price
  pub close : Price
  pub volume : Quantity
  pub ts_event : UnixNanos
  pub ts_init : UnixNanos

pub data MarketEvent : Type 0 where
  quote : QuoteTick → MarketEvent
  trade : TradeTick → MarketEvent
  delta : OrderBookDelta → MarketEvent
  bar : Bar → MarketEvent

unfoldable pub ts_event : MarketEvent → UnixNanos
ts_event (quote q) = q.ts_event
ts_event (trade t) = t.ts_event
ts_event (delta d) = d.ts_event
ts_event (bar b) = b.ts_event

unfoldable pub instrument_id : MarketEvent → InstrumentId
instrument_id (quote q) = q.instrument_id
instrument_id (trade t) = t.instrument_id
instrument_id (delta d) = d.instrument_id
instrument_id (bar b) = b.bar_type.instrument_id
