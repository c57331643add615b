-- ===== src/Kernel/Settle.antt =====
-- backtesting-simulation/crates/coinext-kernel/src/backtest.rs: expiry settlement and liquidation.
pub mod Frame
use Prim.Native.String.{◌++◌}
use coinext.Prelude.{
  ℕ, List, [], ◌∷◌, Option, some, none, Bool, true, false, not, ◌&&◌, ◌||◌, String, keep, map, ltb,
  if◌then◌else◌,
}
use coinext.Prelude.Maps.{◌==◌}
use coinext.Core.Error.{Result, ok, err}
use coinext.Core.Decimal.{Decimals, le}
use coinext.Core.Price
use coinext.Core.Price.{Price}
use coinext.Core.Money
use coinext.Core.Time.{UnixNanos}
use coinext.Model.Enums.{
  AssetClass, OptionRight, OrderSide, PositionSide, LiquiditySide, intrinsic, is_terminal,
}
use coinext.Model.Ids.{InstrumentId, ClientOrderId, instrument_id_eq, to_text}
use coinext.Model.Fill.{Fill}
use coinext.Model.Order.{Order, OrderEvent}
use coinext.Model.Position
use coinext.Model.Position.{Position, is_flat}
use coinext.Model.Instrument.{
  Instrument, asset_class, strike, option_right, underlying, price_precision, settlement_currency,
}
use coinext.Cache
use coinext.Cache.{Cache}
use coinext.Ports.{Portfolio}
use coinext.Portfolio.{portfolio_state}
use coinext.Exec.Submit as Exec
use coinext.Sim.Brokerage.{BrokerageModel}
use coinext.Sim.Intake.{sim_venue}
use coinext.Kernel.{Strategy, BacktestKernel}
use coinext.Kernel.Commands.{count_fill, notify_event, notify_all, process_outbox}

module _ ⦃d : Decimals⦄ where
  -- The spot of the underlying, unless it is the option itself.
  abbrev spot_of : Cache → InstrumentId → Option InstrumentId → Option Price
  spot_of c id none = none
  spot_of c id (some u) = if u == id then none else Cache.mark c u

  abbrev or_none : Result Price → Option Price
  or_none (ok p) = some p
  or_none (err e) = none

  abbrev pub option_price :
      Option Price → Option OptionRight → Option Price → ℕ → Option Price → Option Price
  option_price (some k) (some right) (some spot) precision own =
      or_none (
        Price.from_decimal (intrinsic right (Price.as_decimal spot) (Price.as_decimal k)) precision)
  option_price _ _ _ precision own = own

  unfoldable pub settlement_price : Cache → InstrumentId → Instrument → Option Price
  unfolding intrinsic
  settlement_price c id inst = elim (asset_class inst) [
    | AssetClass.option ↦
        option_price (strike inst) (option_right inst) (spot_of c id (underlying inst))
          (price_precision inst) (Cache.mark c id)
    | _ ↦ Cache.mark c id
  ]

  abbrev pub closing_side : PositionSide → Option OrderSide
  closing_side PositionSide.long = some OrderSide.sell
  closing_side PositionSide.short = some OrderSide.buy
  closing_side PositionSide.flat = none

  unfoldable pub closing_fill :
      InstrumentId → Price → UnixNanos → String → Position → Instrument → OrderSide → Fill
  closing_fill id px now suffix p inst side =
      let tag = to_text id ++ ("-" ++ suffix) in
      record {
        trade_id = tag;
        client_order_id = tag;
        venue_order_id = tag;
        instrument_id = id;
        side = side;
        last_px = px;
        last_qty = p.quantity;
        fee = Money.zero (settlement_currency inst);
        liquidity = LiquiditySide.taker;
        ts_event = now;
        ts_init = now;
      }

  abbrev pub open_ids : InstrumentId → Cache → List ClientOrderId
  open_ids id c =
      let mine = λ (o : Order). o.instrument_id == id && not (is_terminal o.status) in
      map (λ o. o.client_order_id) (keep mine (map (λ e. e.1) c.orders))

  abbrev pub open_positions : Cache → List InstrumentId
  open_positions c =
      map (λ p. p.instrument_id) (keep (λ p. not (is_flat p.side)) (Cache.position_values c))

  -- Whether equity covers the maintenance margin.
  abbrev pub covered : d.Decimal → d.Decimal → d.Decimal → Bool
  covered gross equity rate = le gross d.zero || le (d.mul gross rate) equity

  module _ {S : Type 0} where
    -- The position after the fill is stored also where the fill reports an error.
    unfoldable pub book_closing : Fill → Instrument → Position → BacktestKernel S → BacktestKernel S
    unfolding Position.apply_fill
    book_closing f inst p k =
        let p' = (Position.apply_fill p f inst).0 in
        record k {
          engine = record k.engine { cache = Cache.upsert_position p' k.engine.cache };
          result = count_fill f k.result;
        }

    module _ (strategy : Strategy S) (model : BrokerageModel) where
      unfoldable pub close_with : Fill → Instrument → Position → BacktestKernel S → BacktestKernel S
      unfolding book_closing notify_event process_outbox
      close_with f inst p k =
          process_outbox strategy model
            (notify_event strategy model (OrderEvent.filled f) (book_closing f inst p k))

      abbrev pub close_on :
          Option OrderSide
          → Instrument
          → Position
          → InstrumentId
          → Price
          → UnixNanos
          → String
          → BacktestKernel S
          → BacktestKernel S
      close_on none inst p id px now suffix k = k
      close_on (some side) inst p id px now suffix k =
          close_with (closing_fill id px now suffix p inst side) inst p k

      abbrev pub close_found :
          Option Instrument
          → Option Position
          → InstrumentId
          → Price
          → UnixNanos
          → String
          → BacktestKernel S
          → BacktestKernel S
      close_found (some inst) (some p) id px now suffix k =
          close_on (closing_side p.side) inst p id px now suffix k
      close_found _ _ id px now suffix k = k

      unfoldable pub close_position_at :
          InstrumentId → Price → UnixNanos → String → BacktestKernel S → BacktestKernel S
      unfolding close_with closing_fill
      close_position_at id px now suffix k =
          let c = k.engine.cache in
          close_found (Cache.instrument c id) (Cache.position c id) id px now suffix k

      unfoldable pub cancel_loop :
          List ClientOrderId → UnixNanos → BacktestKernel S → BacktestKernel S
      unfolding notify_all Exec.cancel
      cancel_loop [] now k = k
      cancel_loop (id ∷ ids) now k =
          let r = Exec.cancel (sim_venue k.clock.now model.latency_ns) id now (k.engine, k.sim) in
          cancel_loop ids now
            (notify_all strategy model r.1 (record k { engine = r.0.0; sim = r.0.1 }))

      abbrev pub close_if :
          Option Price → InstrumentId → UnixNanos → BacktestKernel S → BacktestKernel S
      close_if none id now k = k
      close_if (some px) id now k = close_position_at id px now "SETTLE" k

      unfoldable pub settle_contract :
          InstrumentId → UnixNanos → BacktestKernel S → BacktestKernel S
      unfolding settlement_price close_position_at cancel_loop
      settle_contract id now k = elim (Cache.instrument k.engine.cache id) [
        | none ↦ k
        | some inst ↦
            let k' = close_if (settlement_price k.engine.cache id inst) id now k in
            cancel_loop (open_ids id k'.engine.cache) now k'
      ]

      unfoldable pub settle_loop :
          List (UnixNanos × InstrumentId) → UnixNanos → BacktestKernel S → BacktestKernel S
      unfolding settle_contract
      settle_loop [] frontier k = k
      settle_loop ((ts, id) ∷ rest) frontier k =
          let later =
            settle_loop rest frontier
              (settle_contract id frontier (record k { expiries = rest })) in
          if ltb frontier ts then k else later

      unfoldable pub settle_expiries : UnixNanos → BacktestKernel S → BacktestKernel S
      unfolding settle_loop
      settle_expiries frontier k = settle_loop k.expiries frontier k

      unfoldable pub liquidate_loop :
          List InstrumentId → UnixNanos → BacktestKernel S → BacktestKernel S
      unfolding close_position_at
      liquidate_loop [] now k = k
      liquidate_loop (id ∷ ids) now k =
          let k' : BacktestKernel S = elim (Cache.mark k.engine.cache id) [
            | none ↦ k
            | some mark ↦ close_position_at id mark now "LIQ" k
          ] in
          liquidate_loop ids now k'

      abbrev pub liquidate_if : Option d.Decimal → UnixNanos → BacktestKernel S → BacktestKernel S
      liquidate_if none now k = k
      liquidate_if (some rate) now k =
          let portfolio : Portfolio = portfolio_state k.settle in
          let c = k.engine.cache in
          let equity = Money.amount (portfolio.equity c) in
          let gross = Money.amount (portfolio.gross_exposure c) in
          if covered gross equity rate then k else liquidate_loop (open_positions c) now k

      unfoldable pub check_liquidation : UnixNanos → BacktestKernel S → BacktestKernel S
      unfolding liquidate_loop
      check_liquidation now k = liquidate_if k.maintenance_margin_rate now k
