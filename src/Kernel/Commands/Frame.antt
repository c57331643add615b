-- ===== src/Kernel/Commands/Frame.antt =====
-- backtesting-simulation/crates/coinext-kernel/src/backtest.rs: what handlers and commands leave alone.
use coinext.Prelude.{ℕ, ◌+◌, String, ◌≡◌, ◌∙◌, refl, List, [], ◌∷◌, Bool-cases, inl, inr}
use coinext.Core.Decimal.{Decimals}
use coinext.Core.Clock
use coinext.Core.Clock.{HistoricalClock}
use coinext.Core.Time.{UnixNanos}
use coinext.Model.Fill.{Fill}
use coinext.Model.Order.{OrderEvent}
use coinext.Ports.{StrategyCommand}
use coinext.Ports.Context
use coinext.Ports.Context.{StrategyContext}
use coinext.Portfolio.{portfolio_state}
use coinext.RiskGate.{risk_engine}
use coinext.Exec.Submit as Exec
use coinext.Exec.{ExecutionEngine}
use coinext.Sim.Intake.{SimState, sim_venue}
use coinext.Sim.Brokerage.{BrokerageModel}
use coinext.Kernel.{
  Action, done, reads, sets_timer, cancels_timer, mints, submits, cancels, modifies, Strategy,
  BacktestKernel, RunResult,
}
use coinext.Kernel.Commands.{
  is_denied, perform, notify_event, notify_all, notify_submission, count_denial, run_command,
  run_commands, process_outbox,
}

set_timer_now :
    (c : HistoricalClock) (name : String) (at : UnixNanos)
    → (Clock.set_timer c name at).0.now ≡ c.now
unfolding Clock.set_timer
set_timer_now c name at = refl

cancel_timer_now : (c : HistoricalClock) (id : ℕ) → (Clock.cancel_timer c id).now ≡ c.now
unfolding Clock.cancel_timer
cancel_timer_now c id = refl

module _ ⦃d : Decimals⦄ {S : Type 0} where
  -- The time, the events and expiries to come, and the risk settings are the same.
  pub record Frame (k k' : BacktestKernel S) : Type 0 where
    pub now : k'.clock.now ≡ k.clock.now
    pub events : k'.events ≡ k.events
    pub expiries : k'.expiries ≡ k.expiries
    pub risk : k'.risk ≡ k.risk
    pub rate : k'.maintenance_margin_rate ≡ k.maintenance_margin_rate

  pub Frame-refl : (k : BacktestKernel S) → Frame k k
  Frame-refl k = record { now = refl; events = refl; expiries = refl; risk = refl; rate = refl }

  pub Frame-trans : {k l m : BacktestKernel S} → Frame k l → Frame l m → Frame k m
  Frame-trans f g = record {
    now = g.now ∙ f.now;
    events = g.events ∙ f.events;
    expiries = g.expiries ∙ f.expiries;
    risk = g.risk ∙ f.risk;
    rate = g.rate ∙ f.rate;
  }

  with_clock :
      (k : BacktestKernel S) (c : HistoricalClock)
      → c.now ≡ k.clock.now
      → Frame k (record k { clock = c })
  with_clock k c e = record { now = e; events = refl; expiries = refl; risk = refl; rate = refl }

  -- The fields that a frame does not fix.
  pub same_rest :
      (k : BacktestKernel S) (e : ExecutionEngine) (v : SimState) (s : S) (c : StrategyContext)
      (r : RunResult)
      → Frame k (record k { engine = e; sim = v; state = s; ctx = c; result = r })
  same_rest k e v s c r = record {
    now = refl;
    events = refl;
    expiries = refl;
    risk = refl;
    rate = refl;
  }

  with_ctx : (k : BacktestKernel S) (c : StrategyContext) → Frame k (record k { ctx = c })
  with_ctx k c = same_rest k k.engine k.sim k.state c k.result

  pub perform-Frame : (a : Action S) (k : BacktestKernel S) → Frame k (perform a k)
  unfolding perform
  perform-Frame (done s) k = same_rest k k.engine k.sim s k.ctx k.result
  perform-Frame (reads next) k = perform-Frame (next k.engine.cache k.clock.now) k
  perform-Frame (sets_timer name at next) k =
      let r = Clock.set_timer k.clock name at in
      Frame-trans (with_clock k r.0 (set_timer_now k.clock name at))
        (perform-Frame (next r.1) (record k { clock = r.0 }))
  perform-Frame (cancels_timer id next) k =
      let c = Clock.cancel_timer k.clock id in
      Frame-trans (with_clock k c (cancel_timer_now k.clock id))
        (perform-Frame next (record k { clock = c }))
  perform-Frame (mints change next) k =
      let f = change k.ctx.factory in
      Frame-trans (with_ctx k (record k.ctx { factory = f })) (perform-Frame (next f) _)
  perform-Frame (submits o next) k =
      Frame-trans (with_ctx k (Context.submit o k.ctx)) (perform-Frame next _)
  perform-Frame (cancels id next) k =
      Frame-trans (with_ctx k (Context.cancel id k.ctx)) (perform-Frame next _)
  perform-Frame (modifies id q p next) k =
      Frame-trans (with_ctx k (Context.modify id q p k.ctx)) (perform-Frame next _)

  module _ (strategy : Strategy S) (model : BrokerageModel) where
    told :
        (ev : OrderEvent) (k : BacktestKernel S)
        → Frame k (perform (strategy.on_order_event ev k.state) k)
    told ev k = perform-Frame (strategy.on_order_event ev k.state) k

    told_fill :
        (f : Fill) (ev : OrderEvent) (k : BacktestKernel S)
        → let l = perform (strategy.on_order_filled f k.state) k in
          Frame k (perform (strategy.on_order_event ev l.state) l)
    told_fill f ev k =
        Frame-trans (perform-Frame (strategy.on_order_filled f k.state) k) (told ev _)

    pub notify_event-Frame :
        (ev : OrderEvent) (k : BacktestKernel S) → Frame k (notify_event strategy model ev k)
    unfolding notify_event
    notify_event-Frame (OrderEvent.filled f) k = told_fill f (OrderEvent.filled f) k
    notify_event-Frame (OrderEvent.partially_filled f) k =
        told_fill f (OrderEvent.partially_filled f) k
    notify_event-Frame (OrderEvent.initialized i) k = told (OrderEvent.initialized i) k
    notify_event-Frame (OrderEvent.submitted t) k = told (OrderEvent.submitted t) k
    notify_event-Frame (OrderEvent.accepted v t) k = told (OrderEvent.accepted v t) k
    notify_event-Frame (OrderEvent.pending_update t) k = told (OrderEvent.pending_update t) k
    notify_event-Frame (OrderEvent.updated q p t) k = told (OrderEvent.updated q p t) k
    notify_event-Frame (OrderEvent.pending_cancel t) k = told (OrderEvent.pending_cancel t) k
    notify_event-Frame (OrderEvent.denied r t) k = told (OrderEvent.denied r t) k
    notify_event-Frame (OrderEvent.rejected r t) k = told (OrderEvent.rejected r t) k
    notify_event-Frame (OrderEvent.canceled t) k = told (OrderEvent.canceled t) k
    notify_event-Frame (OrderEvent.expired t) k = told (OrderEvent.expired t) k

    pub notify_all-Frame :
        (evs : List OrderEvent) (k : BacktestKernel S) → Frame k (notify_all strategy model evs k)
    unfolding notify_all
    notify_all-Frame [] k = Frame-refl k
    notify_all-Frame (ev ∷ evs) k = Frame-trans (notify_event-Frame ev k) (notify_all-Frame evs _)

    count_denial-Frame :
        (ev : OrderEvent) (k : BacktestKernel S) → Frame k (count_denial strategy model ev k)
    count_denial-Frame ev k = elim (Bool-cases (is_denied ev)) [
      | inl e ↦ rw e (same_rest k k.engine k.sim k.state k.ctx _)
      | inr e ↦ rw e (Frame-refl k)
    ]

    notify_submission-Frame :
        (evs : List OrderEvent) (k : BacktestKernel S)
        → Frame k (notify_submission strategy model evs k)
    unfolding notify_submission
    notify_submission-Frame [] k = Frame-refl k
    notify_submission-Frame (ev ∷ evs) k =
        Frame-trans (count_denial-Frame ev k)
          (Frame-trans (notify_event-Frame ev _) (notify_submission-Frame evs _))

    run_command-Frame :
        (c : StrategyCommand) (k : BacktestKernel S) → Frame k (run_command strategy model c k)
    unfolding run_command
    run_command-Frame (StrategyCommand.submit o) k =
        let now = k.clock.now in
        let venue = sim_venue now model.latency_ns in
        let r =
          Exec.submit (risk_engine k.risk) (portfolio_state k.settle) venue o now
            (k.engine, k.sim) in
        let counted : RunResult = record k.result {
          orders_submitted = k.result.orders_submitted + 1;
        } in
        Frame-trans (same_rest k r.0.0 r.0.1 k.state k.ctx counted) (notify_submission-Frame r.1 _)
    run_command-Frame (StrategyCommand.cancel id) k =
        let r =
          Exec.cancel (sim_venue k.clock.now model.latency_ns) id k.clock.now (k.engine, k.sim) in
        Frame-trans (same_rest k r.0.0 r.0.1 k.state k.ctx k.result) (notify_all-Frame r.1 _)
    run_command-Frame (StrategyCommand.modify id q p) k = Frame-refl k

    run_commands-Frame :
        (cs : List StrategyCommand) (k : BacktestKernel S)
        → Frame k (run_commands strategy model cs k)
    unfolding run_commands
    run_commands-Frame [] k = Frame-refl k
    run_commands-Frame (c ∷ cs) k = Frame-trans (run_command-Frame c k) (run_commands-Frame cs _)

    pub process_outbox-Frame : (k : BacktestKernel S) → Frame k (process_outbox strategy model k)
    unfolding process_outbox
    process_outbox-Frame k =
        let drained = Context.drain_outbox k.ctx in
        Frame-trans (with_ctx k drained.0) (run_commands-Frame drained.1 _)
