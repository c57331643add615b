-- ===== src/Kernel/Commands.antt =====
-- backtesting-simulation/crates/coinext-kernel/src/backtest.rs: running a handler, `notify_event` and
-- `process_outbox`.
pub mod Frame
use coinext.Prelude.{
  ℕ, ◌+◌, List, [], ◌∷◌, ◌++◌, Option, some, none, Bool, true, false, if◌then◌else◌,
}
use coinext.Core.Decimal.{Decimals}
use coinext.Core.Clock
use coinext.Model.Enums.{sign}
use coinext.Model.Fill.{Fill}
use coinext.Model.Order.{OrderEvent}
use coinext.Cache.{Cache}
use coinext.Ports.{Venue, StrategyCommand}
use coinext.Ports.Context
use coinext.Ports.Context.{StrategyContext}
use coinext.Portfolio.{portfolio_state}
use coinext.RiskGate.{risk_engine}
use coinext.Exec.Submit as Exec
use coinext.Sim.Brokerage.{BrokerageModel}
use coinext.Sim.Intake.{sim_venue}
use coinext.Kernel.{
  Action, done, reads, sets_timer, cancels_timer, mints, submits, cancels, modifies, Strategy,
  BacktestKernel, RunResult,
}

abbrev pub is_denied : OrderEvent → Bool
is_denied (OrderEvent.denied r ts) = true
is_denied _ = false

-- The fill of `Filled` or `PartiallyFilled`.
abbrev pub fill_of : OrderEvent → Option Fill
fill_of (OrderEvent.filled f) = some f
fill_of (OrderEvent.partially_filled f) = some f
fill_of _ = none

abbrev pub count_fill : Fill → RunResult → RunResult
count_fill f r = record r {
  fills = r.fills + 1;
  fills_log =
      r.fills_log
      ++ ((f.ts_event, (f.instrument_id.symbol, (sign f.side, (f.last_qty, f.last_px)))) ∷ []);
}

module _ ⦃d : Decimals⦄ {S : Type 0} where
  unfoldable pub perform : Action S → BacktestKernel S → BacktestKernel S
  unfolding Clock.set_timer Clock.cancel_timer Context.submit Context.cancel Context.modify
  perform (done s) k = record k { state = s }
  perform (reads next) k = perform (next k.engine.cache k.clock.now) k
  perform (sets_timer name at next) k =
      let (clock, id) = Clock.set_timer k.clock name at in
      perform (next id) (record k { clock = clock })
  perform (cancels_timer id next) k =
      perform next (record k { clock = Clock.cancel_timer k.clock id })
  perform (mints change next) k =
      let factory = change k.ctx.factory in
      perform (next factory) (record k { ctx = record k.ctx { factory = factory } })
  perform (submits o next) k = perform next (record k { ctx = Context.submit o k.ctx })
  perform (cancels id next) k = perform next (record k { ctx = Context.cancel id k.ctx })
  perform (modifies id q p next) k = perform next (record k { ctx = Context.modify id q p k.ctx })

  module _ (strategy : Strategy S) (model : BrokerageModel) where
    -- `Filled` and `PartiallyFilled` are told twice, as a fill and as an event.
    unfoldable pub notify_event : OrderEvent → BacktestKernel S → BacktestKernel S
    unfolding perform
    notify_event (OrderEvent.filled f) k =
        let k' = perform (strategy.on_order_filled f k.state) k in
        perform (strategy.on_order_event (OrderEvent.filled f) k'.state) k'
    notify_event (OrderEvent.partially_filled f) k =
        let k' = perform (strategy.on_order_filled f k.state) k in
        perform (strategy.on_order_event (OrderEvent.partially_filled f) k'.state) k'
    notify_event ev k = perform (strategy.on_order_event ev k.state) k

    unfoldable pub notify_all : List OrderEvent → BacktestKernel S → BacktestKernel S
    notify_all [] k = k
    notify_all (ev ∷ evs) k = notify_all evs (notify_event ev k)

    abbrev pub count_denial : OrderEvent → BacktestKernel S → BacktestKernel S
    count_denial ev k =
        if is_denied ev
        then record k { result = record k.result { orders_denied = k.result.orders_denied + 1 } }
        else k

    unfoldable pub notify_submission : List OrderEvent → BacktestKernel S → BacktestKernel S
    notify_submission [] k = k
    notify_submission (ev ∷ evs) k = notify_submission evs (notify_event ev (count_denial ev k))

    abbrev pub venue_of : BacktestKernel S → Venue
    venue_of k = sim_venue k.clock.now model.latency_ns

    unfoldable pub run_command : StrategyCommand → BacktestKernel S → BacktestKernel S
    unfolding notify_submission notify_all Exec.submit Exec.cancel
    run_command (StrategyCommand.submit o) k =
        let r =
          Exec.submit (risk_engine k.risk) (portfolio_state k.settle) (venue_of k) o k.clock.now
            (k.engine, k.sim) in
        notify_submission r.1 (record k {
          engine = r.0.0;
          sim = r.0.1;
          result = record k.result { orders_submitted = k.result.orders_submitted + 1 };
        })
    run_command (StrategyCommand.cancel id) k =
        let r = Exec.cancel (venue_of k) id k.clock.now (k.engine, k.sim) in
        notify_all r.1 (record k { engine = r.0.0; sim = r.0.1 })
    run_command (StrategyCommand.modify id q p) k = k

    unfoldable pub run_commands : List StrategyCommand → BacktestKernel S → BacktestKernel S
    run_commands [] k = k
    run_commands (c ∷ cs) k = run_commands cs (run_command c k)

    -- The commands that are queued while it runs wait for the next call.
    unfoldable pub process_outbox : BacktestKernel S → BacktestKernel S
    unfolding run_commands Context.drain_outbox
    process_outbox k =
        let (ctx, cmds) = Context.drain_outbox k.ctx in run_commands cmds (record k { ctx = ctx })
