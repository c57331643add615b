-- ===== src/Kernel/Step/Frame.antt =====
-- backtesting-simulation/crates/coinext-kernel/src/backtest.rs: what the parts of a round leave alone.
use coinext.Prelude.{◌≡◌, refl, List, [], ◌∷◌, Option, some, none, inl, inr, Option-cases}
use coinext.Core.Decimal.{Decimals}
use coinext.Core.Clock
use coinext.Core.Clock.{TimerEvent, HistoricalClock}
use coinext.Core.Time.{UnixNanos}
use coinext.Model.MarketData.{MarketEvent}
use coinext.Model.Fill.{Fill}
use coinext.Model.Order.{OrderEvent}
use coinext.Cache
use coinext.Ports.{ExecutionReport}
use coinext.DataEngine
use coinext.Exec.Report as Exec
use coinext.Sim.Brokerage.{BrokerageModel}
use coinext.Sim.Queue as Queue
use coinext.Sim.Market as Sim
use coinext.Kernel.{Strategy, BacktestKernel}
use coinext.Kernel.Commands.{fill_of}
use coinext.Kernel.Commands.Frame.{
  Frame, Frame-refl, Frame-trans, same_rest, perform-Frame, notify_event-Frame,
  process_outbox-Frame,
}
use coinext.Kernel.Step.{
  count_found, tell_loop, report_loop, drain_reports, timer_loop, fire_timers, dispatch_market,
  take_event,
}

pop_due_now : (c : HistoricalClock) (t : UnixNanos) → (Clock.pop_due c t).0.now ≡ c.now
unfolding Clock.pop_due
pop_due_now c t = refl

module _ ⦃d : Decimals⦄ {S : Type 0} where
  count_found-Frame : (f : Option Fill) (k : BacktestKernel S) → Frame k (count_found f k)
  count_found-Frame none k = Frame-refl k
  count_found-Frame (some f) k = same_rest k k.engine k.sim k.state k.ctx _

  module _ (strategy : Strategy S) (model : BrokerageModel) where
    tell_loop-Frame :
        (evs : List OrderEvent) (k : BacktestKernel S) → Frame k (tell_loop strategy model evs k)
    unfolding tell_loop
    tell_loop-Frame [] k = Frame-refl k
    tell_loop-Frame (ev ∷ evs) k =
        Frame-trans (count_found-Frame (fill_of ev) k)
          (Frame-trans (notify_event-Frame strategy model ev _) (tell_loop-Frame evs _))

    report_loop-Frame :
        (rs : List ExecutionReport) (k : BacktestKernel S)
        → Frame k (report_loop strategy model rs k)
    unfolding report_loop
    report_loop-Frame [] k = Frame-refl k
    report_loop-Frame (r ∷ rs) k =
        let applied = Exec.apply_report r k.clock.now k.engine in
        Frame-trans (same_rest k applied.0 k.sim k.state k.ctx k.result)
          (Frame-trans (tell_loop-Frame applied.1 _) (report_loop-Frame rs _))

    pub drain_reports-Frame :
        (frontier : UnixNanos) (k : BacktestKernel S)
        → Frame k (drain_reports strategy model frontier k)
    unfolding drain_reports
    drain_reports-Frame frontier k =
        let drained = Queue.drain_due frontier k.sim.queue in
        Frame-trans
          (same_rest k k.engine (record k.sim { queue = drained.0 }) k.state k.ctx k.result)
          (Frame-trans (report_loop-Frame drained.1 _) (process_outbox-Frame strategy model _))

    timer_loop-Frame :
        (ts : List TimerEvent) (k : BacktestKernel S) → Frame k (timer_loop strategy model ts k)
    unfolding timer_loop
    timer_loop-Frame [] k = Frame-refl k
    timer_loop-Frame (t ∷ ts) k =
        Frame-trans (perform-Frame (strategy.on_timer t k.state) k)
          (Frame-trans (process_outbox-Frame strategy model _) (timer_loop-Frame ts _))

    pub fire_timers-Frame :
        (frontier : UnixNanos) (k : BacktestKernel S)
        → Frame k (fire_timers strategy model frontier k)
    unfolding fire_timers
    fire_timers-Frame frontier k =
        let popped = Clock.pop_due k.clock frontier in
        let f : Frame k (record k { clock = popped.0 }) = record {
          now = pop_due_now k.clock frontier;
          events = refl;
          expiries = refl;
          risk = refl;
          rate = refl;
        } in
        Frame-trans f (timer_loop-Frame popped.1 _)

    dispatch_market-Frame :
        (ev : MarketEvent) (k : BacktestKernel S) → Frame k (dispatch_market strategy model ev k)
    unfolding dispatch_market
    dispatch_market-Frame (MarketEvent.quote q) k = perform-Frame (strategy.on_quote q k.state) k
    dispatch_market-Frame (MarketEvent.trade t) k = perform-Frame (strategy.on_trade t k.state) k
    dispatch_market-Frame (MarketEvent.bar b) k = perform-Frame (strategy.on_bar b k.state) k
    dispatch_market-Frame (MarketEvent.delta u) k =
        elim (Option-cases (Cache.order_book k.engine.cache u.instrument_id)) [
          | inl e ↦ rw (e, dispatch_market) (Frame-refl k)
          | inr (book, e) ↦
              rw (e, dispatch_market) (perform-Frame (strategy.on_book book k.state) k)
        ]

    -- A market event that is taken is the only change to what is left to come.
    pub take_event-Frame :
        (ev : MarketEvent) (evs : List MarketEvent) (k : BacktestKernel S)
        → Frame (record k { events = evs }) (take_event strategy model ev evs k)
    unfolding take_event
    take_event-Frame ev evs k =
        let cache = DataEngine.update_cache ev k.engine.cache in
        let k1 : BacktestKernel S = record k { events = evs } in
        let venue = Sim.on_market model k.clock.now cache ev k.sim in
        Frame-trans (same_rest k1 (record k.engine { cache = cache }) venue k.state k.ctx k.result)
          (Frame-trans (dispatch_market-Frame ev _) (process_outbox-Frame strategy model _))
