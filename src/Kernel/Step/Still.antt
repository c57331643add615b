-- ===== src/Kernel/Step/Still.antt =====
-- backtesting-simulation/crates/coinext-kernel/src/backtest.rs: a round of a watcher queues nothing.
use coinext.Prelude.{
  ◌≡◌, refl, ◌∙◌, List, [], ◌∷◌, Option, some, none, inl, inr, Option-cases, Bool-cases, ltb,
  nat_beq,
}
use coinext.Core.Decimal.{Decimals}
use coinext.Core.Clock
use coinext.Core.Money
use coinext.Core.Time.{UnixNanos}
use coinext.Model.Ids.{InstrumentId}
use coinext.Model.MarketData.{MarketEvent, ts_event, instrument_id}
use coinext.Cache
use coinext.Cache.{Cache}
use coinext.DataEngine
use coinext.Portfolio.{gross_exposure, equity}
use coinext.Sim.Brokerage.{BrokerageModel}
use coinext.Sim.Intake.{SimState}
use coinext.Sim.Queue as Queue
use coinext.Sim.Tick.{tick_of}
use coinext.Sim.Market as Sim
use coinext.Sim.Market.{match_loop}
use coinext.Kernel.{Strategy, BacktestKernel}
use coinext.Kernel.Settle.{
  close_position_at, settle_contract, settle_loop, settle_expiries, liquidate_loop, open_positions,
  covered, liquidate_if, check_liquidation,
}
use coinext.Kernel.Step.{
  drain_reports, fire_timers, report_loop, timer_loop, dispatch_market, take_event, feed_market,
  round,
}
use coinext.Kernel.Step.Watching.{
  Watcher, IsStill, perform-IsStill, process_outbox-IsStill, settle_contract-IsStill,
  close_position_at-IsStill,
}

update_cache-orders :
    ⦃d : Decimals⦄ (ev : MarketEvent) (c : Cache) → (DataEngine.update_cache ev c).orders ≡ c.orders
unfolding DataEngine.update_cache Cache.add_quote Cache.set_mark Cache.apply_book_delta
update_cache-orders (MarketEvent.quote q) c = refl
update_cache-orders (MarketEvent.trade t) c = refl
update_cache-orders (MarketEvent.bar b) c = refl
update_cache-orders (MarketEvent.delta u) c = refl

module _ ⦃d : Decimals⦄ (model : BrokerageModel) where
  -- With no order at rest an event schedules nothing.
  Calm : SimState → Type 0
  Calm s = (s.resting ≡ []) × (s.queue.heap ≡ [])

  on_market-Calm :
      (now : UnixNanos) (c : Cache) (ev : MarketEvent) (s : SimState)
      → Calm s
      → Calm (Sim.on_market model now c ev s)
  unfolding Sim.on_market match_loop Calm
  on_market-Calm now c ev s v = elim (Option-cases (Cache.instrument c (instrument_id ev))) [
    | inl e ↦ rw (e, Sim.on_market) v
    | inr (inst, e) ↦ elim (Option-cases (tick_of ev)) [
      | inl f ↦ rw (e, f, Sim.on_market) v
      | inr (t, f) ↦ rw (e, f, Sim.on_market, v.0) (refl, v.1)
    ]
  ]

module _ ⦃d : Decimals⦄ {S : Type 0} (strategy : Strategy S) (model : BrokerageModel)
    (watcher : Watcher strategy) where
  settle_loop-IsStill :
      (es : List (UnixNanos × InstrumentId)) (t : UnixNanos) (k : BacktestKernel S)
      → IsStill k
      → IsStill (settle_loop strategy model es t k)
  unfolding settle_loop
  settle_loop-IsStill [] t k v = v
  settle_loop-IsStill ((ts, id) ∷ es) t k v = elim (Bool-cases (ltb t ts)) [
    | inl e ↦ rw e v
    | inr e ↦
        let k1 : BacktestKernel S = record k { expiries = es } in
        let w : IsStill k1 = record {
          outbox = v.outbox;
          resting = v.resting;
          reports = v.reports;
          timers = v.timers;
          orders = v.orders;
        } in
        rw e (
          settle_loop-IsStill es t (settle_contract strategy model id t k1)
            (settle_contract-IsStill strategy model watcher id t k1 w))
  ]

  liquidate_loop-IsStill :
      (ids : List InstrumentId) (t : UnixNanos) (k : BacktestKernel S)
      → IsStill k
      → IsStill (liquidate_loop strategy model ids t k)
  unfolding liquidate_loop
  liquidate_loop-IsStill [] t k v = v
  liquidate_loop-IsStill (id ∷ ids) t k v = elim (Option-cases (Cache.mark k.engine.cache id)) [
    | inl e ↦ rw (e, liquidate_loop) (liquidate_loop-IsStill ids t k v)
    | inr (px, e) ↦
        rw (e, liquidate_loop)
          (liquidate_loop-IsStill ids t (close_position_at strategy model id px t "LIQ" k)
            (close_position_at-IsStill strategy model watcher id px t "LIQ" k v))
  ]

  liquidate_if-IsStill :
      (rate : Option d.Decimal) (t : UnixNanos) (k : BacktestKernel S)
      → IsStill k
      → IsStill (liquidate_if strategy model rate t k)
  liquidate_if-IsStill none t k v = v
  liquidate_if-IsStill (some rate) t k v =
      let c = k.engine.cache in
      let gross = Money.amount (gross_exposure k.settle c) in
      elim (Bool-cases (covered gross (Money.amount (equity k.settle c)) rate)) [
        | inl e ↦ rw e v
        | inr e ↦ rw e (liquidate_loop-IsStill (open_positions c) t k v)
      ]

  drain_reports-IsStill :
      (t : UnixNanos) (k : BacktestKernel S)
      → IsStill k
      → IsStill (drain_reports strategy model t k)
  unfolding drain_reports Queue.drain_due report_loop
  drain_reports-IsStill t k v = rw v.reports (
      process_outbox-IsStill strategy model watcher _ (record {
        outbox = v.outbox;
        resting = v.resting;
        reports = refl;
        timers = v.timers;
        orders = v.orders;
      }))

  fire_timers-IsStill :
      (t : UnixNanos) (k : BacktestKernel S) → IsStill k → IsStill (fire_timers strategy model t k)
  unfolding fire_timers Clock.pop_due timer_loop
  fire_timers-IsStill t k v = rw v.timers (record {
    outbox = v.outbox;
    resting = v.resting;
    reports = v.reports;
    timers = refl;
    orders = v.orders;
  })

  dispatch_market-IsStill :
      (ev : MarketEvent) (k : BacktestKernel S)
      → IsStill k
      → IsStill (dispatch_market strategy model ev k)
  unfolding dispatch_market
  dispatch_market-IsStill (MarketEvent.quote q) k v =
      perform-IsStill (strategy.on_quote q k.state) k (watcher.on_quote q k.state) v
  dispatch_market-IsStill (MarketEvent.trade t) k v =
      perform-IsStill (strategy.on_trade t k.state) k (watcher.on_trade t k.state) v
  dispatch_market-IsStill (MarketEvent.bar b) k v =
      perform-IsStill (strategy.on_bar b k.state) k (watcher.on_bar b k.state) v
  dispatch_market-IsStill (MarketEvent.delta u) k v =
      elim (Option-cases (Cache.order_book k.engine.cache u.instrument_id)) [
        | inl e ↦ rw (e, dispatch_market) v
        | inr (b, e) ↦
            rw (e, dispatch_market)
              (perform-IsStill (strategy.on_book b k.state) k (watcher.on_book b k.state) v)
      ]

  take_event-IsStill :
      (ev : MarketEvent) (evs : List MarketEvent) (k : BacktestKernel S)
      → IsStill k
      → IsStill (take_event strategy model ev evs k)
  unfolding take_event Calm
  take_event-IsStill ev evs k v =
      let cache = DataEngine.update_cache ev k.engine.cache in
      let calm = on_market-Calm model k.clock.now cache ev k.sim (v.resting, v.reports) in
      process_outbox-IsStill strategy model watcher _ (
        dispatch_market-IsStill ev _ (record {
          outbox = v.outbox;
          resting = calm.0;
          reports = calm.1;
          timers = v.timers;
          orders = update_cache-orders ev k.engine.cache ∙ v.orders;
        }))

  feed_market-IsStill :
      (t : UnixNanos) (evs : List MarketEvent) (k : BacktestKernel S)
      → IsStill k
      → IsStill (feed_market strategy model t evs k)
  unfolding feed_market
  feed_market-IsStill t [] k v = v
  feed_market-IsStill t (ev ∷ evs) k v = elim (Bool-cases (nat_beq (ts_event ev) t)) [
    | inl e ↦ rw (e, feed_market) (take_event-IsStill ev evs k v)
    | inr e ↦ rw (e, feed_market) v
  ]

  advanced-IsStill :
      (t : UnixNanos) (k : BacktestKernel S)
      → IsStill k
      → IsStill (record k { clock = Clock.advance_to k.clock t })
  unfolding Clock.advance_to
  advanced-IsStill t k v = elim (Bool-cases (ltb k.clock.now t)) [
    | inl e ↦
        rw (e, Clock.advance_to)
          (record {
            outbox = v.outbox;
            resting = v.resting;
            reports = v.reports;
            timers = v.timers;
            orders = v.orders;
          })
    | inr e ↦ rw (e, Clock.advance_to) v
  ]

  pub round-IsStill :
      (t : UnixNanos) (k : BacktestKernel S) → IsStill k → IsStill (round strategy model t k)
  unfolding round settle_expiries check_liquidation
  round-IsStill t k v =
      let k1 : BacktestKernel S = record k { clock = Clock.advance_to k.clock t } in
      let k2 = fire_timers strategy model t (drain_reports strategy model t k1) in
      let w = fire_timers-IsStill t _ (drain_reports-IsStill t k1 (advanced-IsStill t k v)) in
      let k3 = feed_market strategy model t k.events k2 in
      liquidate_if-IsStill _ t _
        (settle_loop-IsStill k3.expiries t k3 (feed_market-IsStill t k.events k2 w))
