-- ===== src/Kernel/Step.antt =====
-- backtesting-simulation/crates/coinext-kernel/src/backtest.rs: the loop of `run`. A strategy may set
-- timers without end, so a run has a bound on its rounds.
pub mod Frame
pub mod Passing
pub mod Time
pub mod Watching
pub mod Still
pub mod Ends
use coinext.Prelude.{
  ℕ, zero, suc, List, [], ◌∷◌, Option, some, none, Bool, true, false, nat_beq, ltb, if◌then◌else◌,
}
use coinext.Core.Decimal.{Decimals}
use coinext.Core.Clock
use coinext.Core.Clock.{TimerEvent}
use coinext.Core.Time.{UnixNanos}
use coinext.Model.Ids.{InstrumentId}
use coinext.Model.Fill.{Fill}
use coinext.Model.MarketData.{MarketEvent, ts_event}
use coinext.Model.Order.{OrderEvent}
use coinext.Cache
use coinext.Ports.{ExecutionReport}
use coinext.DataEngine
use coinext.Exec.Report as Exec
use coinext.Sim.Brokerage.{BrokerageModel}
use coinext.Sim.Queue as Queue
use coinext.Sim.Market as Sim
use coinext.Kernel.{Strategy, BacktestKernel}
use coinext.Kernel.Commands.{count_fill, fill_of, perform, notify_event, process_outbox}
use coinext.Kernel.Settle.{settle_expiries, check_liquidation}

abbrev pub next_market : List MarketEvent → Option UnixNanos
next_market [] = none
next_market (ev ∷ evs) = some (ts_event ev)

abbrev pub next_expiry : List (UnixNanos × InstrumentId) → Option UnixNanos
next_expiry [] = none
next_expiry ((ts, id) ∷ rest) = some ts

-- The least of the times that there are.
abbrev pub earliest : Option UnixNanos → Option UnixNanos → Option UnixNanos
earliest none b = b
earliest (some a) none = some a
earliest (some a) (some b) = some (if ltb b a then b else a)

module _ ⦃d : Decimals⦄ {S : Type 0} where
  unfoldable pub frontier_of : BacktestKernel S → Option UnixNanos
  unfolding ts_event Queue.peek_due Clock.peek_next_timer
  frontier_of k = earliest (next_market k.events) (
      earliest (Queue.peek_due k.sim.queue)
        (earliest (Clock.peek_next_timer k.clock) (next_expiry k.expiries)))

  abbrev pub count_found : Option Fill → BacktestKernel S → BacktestKernel S
  count_found none k = k
  count_found (some f) k = record k { result = count_fill f k.result }

  abbrev pub count_if_fill : OrderEvent → BacktestKernel S → BacktestKernel S
  count_if_fill ev k = count_found (fill_of ev) k

  module _ (strategy : Strategy S) (model : BrokerageModel) where
    unfoldable pub tell_loop : List OrderEvent → BacktestKernel S → BacktestKernel S
    unfolding notify_event
    tell_loop [] k = k
    tell_loop (ev ∷ evs) k = tell_loop evs (notify_event strategy model ev (count_if_fill ev k))

    unfoldable pub report_loop : List ExecutionReport → BacktestKernel S → BacktestKernel S
    unfolding tell_loop Exec.apply_report
    report_loop [] k = k
    report_loop (r ∷ rs) k =
        let (engine, events) = Exec.apply_report r k.clock.now k.engine in
        report_loop rs (tell_loop events (record k { engine = engine }))

    unfoldable pub drain_reports : UnixNanos → BacktestKernel S → BacktestKernel S
    unfolding report_loop process_outbox Queue.drain_due
    drain_reports frontier k =
        let (queue, reports) = Queue.drain_due frontier k.sim.queue in
        process_outbox strategy model
          (report_loop reports (record k { sim = record k.sim { queue = queue } }))

    unfoldable pub timer_loop : List TimerEvent → BacktestKernel S → BacktestKernel S
    unfolding perform process_outbox
    timer_loop [] k = k
    timer_loop (t ∷ ts) k =
        timer_loop ts (process_outbox strategy model (perform (strategy.on_timer t k.state) k))

    unfoldable pub fire_timers : UnixNanos → BacktestKernel S → BacktestKernel S
    unfolding timer_loop Clock.pop_due
    fire_timers frontier k =
        let (clock, timers) = Clock.pop_due k.clock frontier in
        timer_loop timers (record k { clock = clock })

    unfoldable pub dispatch_market : MarketEvent → BacktestKernel S → BacktestKernel S
    unfolding perform
    dispatch_market (MarketEvent.quote q) k = perform (strategy.on_quote q k.state) k
    dispatch_market (MarketEvent.trade t) k = perform (strategy.on_trade t k.state) k
    dispatch_market (MarketEvent.bar b) k = perform (strategy.on_bar b k.state) k
    dispatch_market (MarketEvent.delta u) k =
        elim (Cache.order_book k.engine.cache u.instrument_id) [
          | none ↦ k
          | some book ↦ perform (strategy.on_book book k.state) k
        ]

    unfoldable pub take_event : MarketEvent → List MarketEvent → BacktestKernel S → BacktestKernel S
    unfolding dispatch_market process_outbox DataEngine.update_cache Sim.on_market
    take_event ev evs k =
        let cache = DataEngine.update_cache ev k.engine.cache in
        let k' : BacktestKernel S = record k {
          events = evs;
          engine = record k.engine { cache = cache };
          sim = Sim.on_market model k.clock.now cache ev k.sim;
        } in
        process_outbox strategy model (dispatch_market ev k')

    -- The market event whose time is the frontier.
    unfoldable pub feed_market : UnixNanos → List MarketEvent → BacktestKernel S → BacktestKernel S
    unfolding take_event ts_event
    feed_market frontier [] k = k
    feed_market frontier (ev ∷ evs) k =
        if nat_beq (ts_event ev) frontier then take_event ev evs k else k

    -- One round of the loop at a frontier. `events` is the list as it was when the frontier was found.
    unfoldable pub round : UnixNanos → BacktestKernel S → BacktestKernel S
    unfolding Clock.advance_to drain_reports fire_timers feed_market settle_expiries
        check_liquidation
    round frontier k =
        let k1 : BacktestKernel S = record k { clock = Clock.advance_to k.clock frontier } in
        let k2 = fire_timers frontier (drain_reports frontier k1) in
        let k3 = settle_expiries strategy model frontier (feed_market frontier k.events k2) in
        check_liquidation strategy model frontier k3

    -- `none` where nothing is left to do.
    unfoldable pub step : BacktestKernel S → Option (BacktestKernel S)
    unfolding frontier_of round
    step k = elim (frontier_of k) [ none ↦ none | some frontier ↦ some (round frontier k) ]

    -- `none` where the bound on the rounds is reached.
    unfoldable pub rounds : ℕ → BacktestKernel S → Option (BacktestKernel S)
    unfolding step
    rounds zero k = none
    rounds (suc n) k = elim (step k) [ none ↦ some k | some k' ↦ rounds n k' ]

    abbrev pub finish : Option (BacktestKernel S) → Option (BacktestKernel S)
    finish none = none
    finish (some k) = some (process_outbox strategy model (perform (strategy.on_stop k.state) k))

    unfoldable pub run : ℕ → BacktestKernel S → Option (BacktestKernel S)
    unfolding rounds perform process_outbox
    run n k =
        finish (rounds n (process_outbox strategy model (perform (strategy.on_start k.state) k)))
