-- ===== src/Kernel/Live.antt =====
-- backtesting-simulation/crates/coinext-kernel/src/live.rs: the port-driven kernel. The two clients are
-- interfaces, the messages of their streams a list in the order in which the loop takes them; it ends
-- where the loop breaks. The callback with a portfolio snapshot and the bus are left out.
pub mod Loop
pub mod Build
pub mod Handled
pub mod Gate
use coinext.Prelude.{ℕ, Bool, List, [], ◌∷◌, Option, none, some, String, if◌then◌else◌}
use coinext.Core.Error.{ModelError}
use coinext.Core.Decimal.{Decimals}
use coinext.Core.SystemClock
use coinext.Core.SystemClock.{SystemClock}
use coinext.Core.Currency.{Currency}
use coinext.Core.Time.{UnixNanos}
use coinext.Model.Ids.{ClientOrderId, InstrumentId}
use coinext.Model.Instrument.{Instrument}
use coinext.Model.MarketData.{MarketEvent}
use coinext.Model.Order.{Order, OrderEvent}
use coinext.Cache
use coinext.DataEngine
use coinext.Exec.{ExecutionEngine}
use coinext.Exec.Submit as Exec
use coinext.Exec.Submit.{is_some, apply_or_keep, track}
use coinext.Portfolio.{portfolio_state}
use coinext.Ports.{ExecutionReport, StrategyCommand, RiskDecision, to_text}
use coinext.Ports.Context
use coinext.Ports.Context.{StrategyContext}
use coinext.RiskGate.{RiskGate, risk_engine}
use coinext.Kernel.{
  Action, done, reads, sets_timer, cancels_timer, mints, submits, cancels, modifies, Strategy,
}

pub data PortError : Type 0 where
  model : ModelError → PortError
  not_connected : PortError
  io unsupported rejected : String → PortError

-- What the kernel calls of the two clients: the state after the call, and its error if it failed.
pub record ExecutionClient ⦃d : Decimals⦄ : Type 1 where
  pub State : Type 0
  pub connect : State → State × Option PortError
  pub disconnect : State → State × Option PortError
  pub submit_order : Order → State → State × Option PortError
  pub cancel_order : ClientOrderId → InstrumentId → State → State × Option PortError
  -- The reports, if there was no error.
  pub reconcile : State → State × (List ExecutionReport × Option PortError)

pub record DataClient : Type 1 where
  pub State : Type 0
  pub connect : State → State × Option PortError
  pub disconnect : State → State × Option PortError

pub data Inbound : Type 0 where
  report : ExecutionReport → Inbound
  market : MarketEvent → Inbound

module _ ⦃d : Decimals⦄ (S : Type 0) (exec : ExecutionClient) (data_port : DataClient) where
  pub record LiveKernel : Type 0 where
    pub clock : SystemClock
    pub engine : ExecutionEngine
    pub risk : RiskGate
    pub settle : Currency
    pub state : S
    pub ctx : StrategyContext
    pub exec_client : exec.State
    pub data_client : data_port.State

  -- The kernel after a call, and the error that `?` returns.
  abbrev pub Stepped : Type 0
  Stepped = LiveKernel × Option PortError

  -- `?`: what follows runs if there was no error.
  abbrev pub and_then : Stepped → (LiveKernel → Stepped) → Stepped
  and_then (k, none) next = next k
  and_then (k, some e) next = (k, some e)

module _ ⦃d : Decimals⦄ {S : Type 0} (wall : ℕ → UnixNanos) (exec : ExecutionClient)
    (data_port : DataClient) (strategy : Strategy S) where
  abbrev K : Type 0
  K = LiveKernel S exec data_port

  abbrev Stepped' : Type 0
  Stepped' = Stepped S exec data_port

  unfoldable pub perform : Action S → K → K
  unfolding SystemClock.now_ns SystemClock.set_timer SystemClock.cancel_timer Context.submit
      Context.cancel Context.modify
  perform (done s) k = record k { state = s }
  perform (reads next) k =
      let (clock, now) = SystemClock.now_ns wall k.clock in
      perform (next k.engine.cache now) (record k { clock = clock })
  perform (sets_timer name at next) k =
      let (clock, id) = SystemClock.set_timer k.clock at in
      perform (next id) (record k { clock = clock })
  perform (cancels_timer id next) k =
      perform next (record k { clock = SystemClock.cancel_timer k.clock id })
  perform (mints change next) k =
      let factory = change k.ctx.factory in
      perform (next factory) (record k { ctx = record k.ctx { factory = factory } })
  perform (submits o next) k = perform next (record k { ctx = Context.submit o k.ctx })
  perform (cancels id next) k = perform next (record k { ctx = Context.cancel id k.ctx })
  perform (modifies id q p next) k = perform next (record k { ctx = Context.modify id q p k.ctx })

  unfoldable pub notify_event : OrderEvent → K → K
  unfolding perform
  notify_event (OrderEvent.filled f) k =
      let k' = perform (strategy.on_order_filled f k.state) k in
      perform (strategy.on_order_event (OrderEvent.filled f) k'.state) k'
  notify_event (OrderEvent.partially_filled f) k =
      let k' = perform (strategy.on_order_filled f k.state) k in
      perform (strategy.on_order_event (OrderEvent.partially_filled f) k'.state) k'
  notify_event ev k = perform (strategy.on_order_event ev k.state) k

  unfoldable pub notify_all : List OrderEvent → K → K
  unfolding notify_event
  notify_all [] k = k
  notify_all (ev ∷ evs) k = notify_all evs (notify_event ev k)

  unfoldable pub dispatch_market : MarketEvent → K → K
  unfolding perform
  dispatch_market (MarketEvent.quote q) k = perform (strategy.on_quote q k.state) k
  dispatch_market (MarketEvent.trade t) k = perform (strategy.on_trade t k.state) k
  dispatch_market (MarketEvent.bar b) k = perform (strategy.on_bar b k.state) k
  dispatch_market (MarketEvent.delta u) k = elim (Cache.order_book k.engine.cache u.instrument_id) [
    | none ↦ k
    | some book ↦ perform (strategy.on_book book k.state) k
  ]

  -- The order, tracked with the event, and the handlers told.
  abbrev pub tell_order : Order → OrderEvent → K → K
  tell_order o ev k = notify_event ev (record k { engine = track (apply_or_keep o ev) k.engine })

  abbrev pub send : Order → K → Stepped'
  send o k =
      let (client, error) = exec.submit_order o k.exec_client in
      (record k { exec_client = client }, error)

  abbrev pub route_decided : RiskDecision → Order → UnixNanos → K → Stepped'
  route_decided RiskDecision.approved o now k =
      let ev = OrderEvent.submitted now in send (apply_or_keep o ev) (tell_order o ev k)
  route_decided (RiskDecision.denied reason) o now k =
      (tell_order o (OrderEvent.denied (to_text reason) now) k, none)

  unfoldable pub route_submit : Order → UnixNanos → K → Stepped'
  unfolding notify_event
  route_submit o now k =
      let c = k.engine.cache in
      if is_some (Cache.order c o.client_order_id)
      then (k, none)
      else elim (Cache.instrument c o.instrument_id) [
        | none ↦ (k, none)
        | some inst ↦
            let risk = risk_engine k.risk in
            route_decided (risk.check c o (portfolio_state k.settle) inst) o now k
      ]

  unfoldable pub route_cancel : ClientOrderId → UnixNanos → K → Stepped'
  unfolding notify_all Exec.feed_order
  route_cancel id now k = elim (Cache.order k.engine.cache id) [
    | none ↦ (k, none)
    | some o ↦
        let (engine, events) = Exec.feed_order id (OrderEvent.pending_cancel now) k.engine in
        let k' = notify_all events (record k { engine = engine }) in
        let (client, error) = exec.cancel_order id o.instrument_id k'.exec_client in
        (record k' { exec_client = client }, error)
  ]

  unfoldable pub route_command : UnixNanos → StrategyCommand → K → Stepped'
  unfolding route_submit route_cancel
  route_command now (StrategyCommand.submit o) k = route_submit o now k
  route_command now (StrategyCommand.cancel id) k = route_cancel id now k
  route_command now (StrategyCommand.modify id q p) k = (k, none)

  unfoldable pub route_commands : UnixNanos → List StrategyCommand → K → Stepped'
  unfolding route_command
  route_commands now [] k = (k, none)
  route_commands now (c ∷ cs) k =
      and_then S exec data_port (route_command now c k) (λ l. route_commands now cs l)

  -- The clock is not read where nothing is queued.
  abbrev pub route_drained : List StrategyCommand → K → Stepped'
  route_drained [] k = (k, none)
  route_drained (c ∷ cs) k =
      let (clock, now) = SystemClock.now_ns wall k.clock in
      route_commands now (c ∷ cs) (record k { clock = clock })

  unfoldable pub route_outbox : K → Stepped'
  unfolding route_commands Context.drain_outbox SystemClock.now_ns
  route_outbox k =
      let (ctx, cmds) = Context.drain_outbox k.ctx in route_drained cmds (record k { ctx = ctx })
