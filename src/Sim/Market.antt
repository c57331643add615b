-- ===== src/Sim/Market.antt =====
-- backtesting-simulation/crates/coinext-sim/src/lib.rs: `on_market` and `make_fill`. The code decides
-- for all resting orders, writes back, and then fills in the order of their indices; an index names one
-- order and only the queue and the trade numbers are shared, so here each order takes its steps in turn.
pub mod Trails
pub mod Sizes
pub mod Overfill
use Prim.Native.String.{◌++◌}
use coinext.Prelude.{
  ℕ, ◌+◌, ◌%◌, ◌^◌, Bool, true, false, Option, none, some, List, [], ◌∷◌, String, if◌then◌else◌,
}
use coinext.Prelude.Text.{padded}
use coinext.Prelude.Maps.{insert}
use coinext.Core.Error.{unwrap_or}
use coinext.Core.Decimal.{Decimals}
use coinext.Core.Price.{Price}
use coinext.Core.Quantity
use coinext.Core.Quantity.{Quantity}
use coinext.Core.Time.{UnixNanos, saturating_add_ns}
use coinext.Model.Enums.{OrderType}
use coinext.Model.Ids.{InstrumentId, TradeId, instrument_id_eq}
use coinext.Model.Instrument.{Instrument}
use coinext.Model.MarketData.{MarketEvent, instrument_id}
use coinext.Model.Order.{Order}
use coinext.Cache
use coinext.Cache.{Cache}
use coinext.Ports.{ExecutionReport}
use coinext.Sim.Brokerage.{BrokerageModel, submit}
use coinext.Sim.Queue.{DelayedEventQueue, push}
use coinext.Sim.Tick.{Tick, Decision, Outcome, tick_of}
use coinext.Sim.Intake.{Resting, TrailState, SimState}
use coinext.Sim.Matching.{decide}

abbrev pub clear_pending : Bool → Resting → Resting
clear_pending true r = record r { pending_open = false }
clear_pending false r = r

abbrev pub activate : Bool → Resting → Resting
activate true r = record r { order = record r.order { order_type = OrderType.limit } }
activate false r = r

abbrev pub with_trail : Price → Option TrailState → Option TrailState
with_trail extreme none = none
with_trail extreme (some t) = some (record t { extreme = extreme })

abbrev pub ratchet : Option (Price × Price) → Resting → Resting
ratchet none r = r
ratchet (some (extreme, trigger)) r = record r {
  trail = with_trail extreme r.trail;
  order = record r.order { trigger = some trigger };
}

unfoldable pub write_back : Outcome → Resting → Resting
write_back o r = ratchet o.ratchet (activate o.activate (clear_pending o.clear_pending r))

unfoldable pub trade_id : ℕ → TradeId
trade_id n = "SIM-T-" ++ padded 20 n

abbrev pub queue_or : Option Quantity → Option Quantity → Option Quantity
queue_or none old = old
queue_or (some q) old = some q

-- What a decision leaves of its order.
unfoldable pub reduce : Decision → Resting → Resting
unfolding Quantity.is_positive
reduce dec r =
    let less =
      unwrap_or (Quantity.checked_sub r.remaining dec.fill_qty)
        (Quantity.zero dec.fill_qty.precision) in
    record r {
      remaining = if Quantity.is_positive dec.fill_qty then less else r.remaining;
      queue_ahead = queue_or dec.new_queue r.queue_ahead;
    }

abbrev pub keep_unfilled : Resting → List Resting → List Resting
keep_unfilled r rs = if Quantity.is_zero r.remaining then rs else r ∷ rs

-- What the phase of the fills writes beside the orders.
pub record Ledger : Type 0 where
  pub queue : DelayedEventQueue
  pub trade_seq : ℕ

module _ ⦃d : Decimals⦄ (model : BrokerageModel) (inst : Instrument) where
  unfoldable pub make_fill : ℕ → Order → String → Decision → UnixNanos → ExecutionReport
  unfolding trade_id
  make_fill seq o venue_order_id dec ts = ExecutionReport.fill (record {
    trade_id = trade_id seq;
    client_order_id = o.client_order_id;
    venue_order_id = venue_order_id;
    instrument_id = o.instrument_id;
    side = o.side;
    last_px = dec.fill_px;
    last_qty = dec.fill_qty;
    fee = model.fee o dec.fill_px dec.fill_qty dec.liquidity inst;
    liquidity = dec.liquidity;
    ts_event = ts;
    ts_init = ts;
  })

  module _ (now : UnixNanos) where
    unfoldable pub schedule : Resting → Decision → Ledger → Ledger
    unfolding make_fill push Quantity.is_positive
    schedule r dec l =
        let at = saturating_add_ns now (model.latency_ns submit) in
        let seq = (l.trade_seq + 1) % 2 ^ 64 in
        if Quantity.is_positive dec.fill_qty
        then record {
          queue = push at (make_fill seq r.order r.venue_order_id dec at) l.queue;
          trade_seq = seq;
        }
        else l

    unfoldable pub match_loop : Tick → InstrumentId → List Resting → Ledger → Ledger × List Resting
    match_loop t id [] l = (l, [])
    match_loop t id (r ∷ rs) l =
        let o = decide model inst t id r in
        elim o.decision [
          | none ↦ let rest = match_loop t id rs l in (rest.0, write_back o r ∷ rest.1)
          | some dec ↦
              let rest = match_loop t id rs (schedule r dec l) in
              (rest.0, keep_unfilled (reduce dec (write_back o r)) rest.1)
        ]

module _ ⦃d : Decimals⦄ (model : BrokerageModel) (now : UnixNanos) where
  abbrev pub remember_bar : MarketEvent → SimState → SimState
  remember_bar (MarketEvent.bar b) s = record s {
    last_bar = insert b.bar_type.instrument_id (b.low, b.high, b.volume) s.last_bar;
  }
  remember_bar _ s = s

  abbrev pub match_all : Instrument → Tick → MarketEvent → SimState → SimState
  match_all inst t ev s =
      let ledger : Ledger = record { queue = s.queue; trade_seq = s.trade_seq } in
      let (l, resting) = match_loop model inst now t (instrument_id ev) s.resting ledger in
      record (remember_bar ev s) { queue = l.queue; trade_seq = l.trade_seq; resting = resting }

  unfoldable pub on_market : Cache → MarketEvent → SimState → SimState
  on_market c ev s = elim (Cache.instrument c (instrument_id ev)) [
    | none ↦ s
    | some inst ↦ elim (tick_of ev) [ none ↦ s | some t ↦ match_all inst t ev s ]
  ]
