-- ===== src/Kernel/Live/Loop.antt =====
-- backtesting-simulation/crates/coinext-kernel/src/live.rs: `run`, the messages that it takes given.
use coinext.Prelude.{ℕ, List, [], ◌∷◌, Option, none, some}
use coinext.Core.Decimal.{Decimals}
use coinext.Core.SystemClock
use coinext.Core.Time.{UnixNanos}
use coinext.Model.MarketData.{MarketEvent}
use coinext.DataEngine
use coinext.Exec.Report as Exec
use coinext.Ports.{ExecutionReport}
use coinext.Kernel.{Strategy}
use coinext.Kernel.Live.{
  PortError, ExecutionClient, DataClient, Inbound, report, market, LiveKernel, Stepped, and_then,
  perform, notify_all, dispatch_market, route_outbox,
}

module _ ⦃d : Decimals⦄ {S : Type 0} (wall : ℕ → UnixNanos) (exec : ExecutionClient)
    (data_port : DataClient) (strategy : Strategy S) where
  abbrev K : Type 0
  K = LiveKernel S exec data_port

  abbrev Stepped' : Type 0
  Stepped' = Stepped S exec data_port

  abbrev after : Stepped' → (K → Stepped') → Stepped'
  after = and_then S exec data_port

  -- A report, folded at a time, and its events told.
  unfoldable pub fold_report : UnixNanos → ExecutionReport → K → K
  unfolding Exec.apply_report notify_all
  fold_report now r k =
      let (engine, events) = Exec.apply_report r now k.engine in
      notify_all wall exec data_port strategy events (record k { engine = engine })

  unfoldable pub take_report : ExecutionReport → K → Stepped'
  unfolding fold_report route_outbox SystemClock.now_ns
  take_report r k =
      let (clock, now) = SystemClock.now_ns wall k.clock in
      route_outbox wall exec data_port strategy (fold_report now r (record k { clock = clock }))

  unfoldable pub take_market : MarketEvent → K → Stepped'
  unfolding DataEngine.update_cache dispatch_market route_outbox
  take_market ev k =
      let cache = DataEngine.update_cache ev k.engine.cache in
      let k' : K = record k { engine = record k.engine { cache = cache } } in
      route_outbox wall exec data_port strategy (dispatch_market wall exec data_port strategy ev k')

  abbrev pub take : Inbound → K → Stepped'
  take (report r) k = take_report r k
  take (market ev) k = take_market ev k

  unfoldable pub drain : List Inbound → K → Stepped'
  unfolding take_report take_market
  drain [] k = (k, none)
  drain (m ∷ ms) k = after (take m k) (λ l. drain ms l)

  unfoldable pub fold_reports : UnixNanos → List ExecutionReport → K → K
  unfolding fold_report
  fold_reports now [] k = k
  fold_reports now (r ∷ rs) k = fold_reports now rs (fold_report now r k)

  abbrev pub connect_data : K → Stepped'
  connect_data k =
      let (port, error) = data_port.connect k.data_client in
      (record k { data_client = port }, error)

  abbrev pub disconnect_data : K → Stepped'
  disconnect_data k =
      let (port, error) = data_port.disconnect k.data_client in
      (record k { data_client = port }, error)

  abbrev pub connect_exec : K → Stepped'
  connect_exec k =
      let (port, error) = exec.connect k.exec_client in (record k { exec_client = port }, error)

  abbrev pub disconnect_exec : K → Stepped'
  disconnect_exec k =
      let (port, error) = exec.disconnect k.exec_client in (record k { exec_client = port }, error)

  abbrev pub reconciled : UnixNanos → List ExecutionReport → Option PortError → K → Stepped'
  reconciled now rs none k = (fold_reports now rs k, none)
  reconciled now rs (some e) k = (k, some e)

  unfoldable pub reconcile : K → Stepped'
  unfolding fold_reports SystemClock.now_ns
  reconcile k =
      let (clock, now) = SystemClock.now_ns wall k.clock in
      let (port, (rs, error)) = exec.reconcile k.exec_client in
      reconciled now rs error (record k { clock = clock; exec_client = port })

  unfoldable pub start : K → Stepped'
  unfolding perform route_outbox
  start k =
      route_outbox wall exec data_port strategy
        (perform wall exec data_port strategy (strategy.on_start k.state) k)

  unfoldable pub stop : K → Stepped'
  unfolding perform route_outbox
  stop k =
      route_outbox wall exec data_port strategy
        (perform wall exec data_port strategy (strategy.on_stop k.state) k)

  -- The steps in turn, each behind a `?`.
  unfoldable pub chain : List (K → Stepped') → K → Stepped'
  chain [] k = (k, none)
  chain (f ∷ fs) k = after (f k) (λ l. chain fs l)

  abbrev pub stages : List Inbound → List (K → Stepped')
  stages ms =
      connect_data
      ∷ connect_exec
      ∷ reconcile
      ∷ start
      ∷ drain ms
      ∷ stop
      ∷ disconnect_data
      ∷ disconnect_exec
      ∷ []

  unfoldable pub run : List Inbound → K → Stepped'
  unfolding reconcile start drain stop chain
  run ms k = chain (stages ms) k
