-- ===== src/Sim/Brokerage.antt =====
-- backtesting-simulation/crates/coinext-sim/src/brokerage.rs: the economics of a venue, and its default.
pub mod Bounded
use coinext.Prelude.{ℕ, Bool, true, false, Option, none, some, ◌||◌, if◌then◌else◌}
use coinext.Prelude.Int.{pos}
use coinext.Core.Error.{unwrap_or}
use coinext.Core.Decimal.{Decimals, lt, le, max, min}
use coinext.Core.Price
use coinext.Core.Price.{Price}
use coinext.Core.Quantity
use coinext.Core.Quantity.{Quantity}
use coinext.Core.Money
use coinext.Core.Money.{Money}
use coinext.Model.Enums.{OrderSide, buy, sell, LiquiditySide, maker, taker}
use coinext.Model.Instrument.{
  Instrument, make_price, size_increment, maker_fee, taker_fee, multiplier, is_inverse,
  settlement_currency,
}
use coinext.Model.Order.{Order}

pub data CommandKind : Type 0 where
  submit cancel modify : CommandKind

pub record BrokerageModel ⦃d : Decimals⦄ : Type 0 where
  pub latency_ns : CommandKind → ℕ
  pub fill_price : Order → Price → Option (Price × Price) → Instrument → Price
  pub fillable_qty : Quantity → Quantity → Instrument → Quantity
  pub initial_queue_ahead : Quantity → Instrument → Quantity
  pub fee : Order → Price → Quantity → LiquiditySide → Instrument → Money

pub record DefaultBrokerageModel ⦃d : Decimals⦄ : Type 0 where
  pub slippage_bps : d.Decimal
  pub range_impact : d.Decimal
  pub participation_rate : d.Decimal
  pub queue_ahead_factor : d.Decimal
  pub latency : ℕ

module _ ⦃d : Decimals⦄ where
  -- The methods that the trait provides.
  unfoldable pub provided_fillable_qty : Quantity → Quantity → Instrument → Quantity
  provided_fillable_qty leaves bar_volume inst = leaves

  unfoldable pub provided_queue_ahead : Quantity → Instrument → Quantity
  provided_queue_ahead bar_volume inst = Quantity.zero bar_volume.precision

  unfoldable pub default_model : DefaultBrokerageModel
  default_model = record {
    slippage_bps = d.with_scale (pos 1) 0;
    range_impact = d.with_scale (pos 1) 1;
    participation_rate = d.with_scale (pos 25) 2;
    queue_ahead_factor = d.zero;
    latency = 1000000;
  }

  -- The range as decimals, if its high is above its low.
  abbrev pub real_range : Option (Price × Price) → Option (d.Decimal × d.Decimal)
  real_range none = none
  real_range (some (lo, hi)) =
      let a = Price.as_decimal lo in
      let b = Price.as_decimal hi in if lt a b then some (a, b) else none

  abbrev range_slip : DefaultBrokerageModel → Option (d.Decimal × d.Decimal) → d.Decimal
  range_slip m none = d.zero
  range_slip m (some (lo, hi)) = d.mul (d.sub hi lo) m.range_impact

  -- The base slippage always applies; the part from the range ends at the extreme of the bar.
  abbrev pub adjusted :
      OrderSide → d.Decimal → d.Decimal → d.Decimal → Option (d.Decimal × d.Decimal) → d.Decimal
  adjusted buy reference base_slip slip range =
      let base = d.add reference base_slip in
      let full = d.add base slip in elim range [ none ↦ full | some r ↦ max (min full r.1) base ]
  adjusted sell reference base_slip slip range =
      let base = d.sub reference base_slip in
      let full = d.sub base slip in elim range [ none ↦ full | some r ↦ min (max full r.0) base ]

  unfoldable pub fill_price :
      DefaultBrokerageModel → Order → Price → Option (Price × Price) → Instrument → Price
  fill_price m o ref_px bar_range inst =
      let reference = Price.as_decimal ref_px in
      let base_slip = d.div (d.mul reference m.slippage_bps) (d.with_scale (pos 10000) 0) in
      let range = real_range bar_range in
      unwrap_or (make_price inst (adjusted o.side reference base_slip (range_slip m range) range))
        ref_px

  unfoldable pub fillable_qty : DefaultBrokerageModel → Quantity → Quantity → Instrument → Quantity
  fillable_qty m leaves bar_volume inst =
      let prec = leaves.precision in
      let floored =
        d.round_to_zero (d.mul m.participation_rate (Quantity.as_decimal bar_volume)) prec in
      let one_lot = Quantity.as_decimal (size_increment inst) in
      let fillable = min (max floored one_lot) (Quantity.as_decimal leaves) in
      if le m.participation_rate d.zero || le (Quantity.as_decimal bar_volume) d.zero
      then leaves
      else unwrap_or (Quantity.from_decimal fillable prec) leaves

  unfoldable pub initial_queue_ahead : DefaultBrokerageModel → Quantity → Instrument → Quantity
  initial_queue_ahead m bar_volume inst =
      let prec = bar_volume.precision in
      let q = d.round_to_zero (d.mul m.queue_ahead_factor (Quantity.as_decimal bar_volume)) prec in
      if le m.queue_ahead_factor d.zero
      then Quantity.zero prec
      else unwrap_or (Quantity.from_decimal q prec) (Quantity.zero prec)

  abbrev rate : LiquiditySide → Instrument → d.Decimal
  rate maker inst = maker_fee inst
  rate taker inst = taker_fee inst

  -- The notional of a fill, in the settlement currency.
  unfoldable pub fill_notional : Price → Quantity → Instrument → d.Decimal
  fill_notional fill_px fill_qty inst =
      let px = Price.as_decimal fill_px in
      let mult = Quantity.as_decimal (multiplier inst) in
      let qty = Quantity.as_decimal fill_qty in
      if is_inverse inst
      then (if d.is_zero px then d.zero else d.div (d.mul qty mult) px)
      else d.mul (d.mul px qty) mult

  unfoldable pub fee : Order → Price → Quantity → LiquiditySide → Instrument → Money
  unfolding fill_notional
  fee o fill_px fill_qty liquidity inst =
      let currency = settlement_currency inst in
      unwrap_or
        (Money.from_decimal (d.mul (fill_notional fill_px fill_qty inst) (rate liquidity inst))
          currency)
        (Money.zero currency)

  abbrev pub brokerage_model : DefaultBrokerageModel → BrokerageModel
  brokerage_model m = record {
    latency_ns = λ kind. m.latency;
    fill_price = fill_price m;
    fillable_qty = fillable_qty m;
    initial_queue_ahead = initial_queue_ahead m;
    fee = fee;
  }
