-- ===== src/Kernel/Build/Total.antt =====
-- backtesting-simulation/crates/coinext-kernel/src/backtest.rs: a bound on the rounds of `run` for a
-- strategy that only watches.
use coinext.Prelude.{
  ℕ, ◌+◌, ◌≤◌, ◌<◌, ◌≡◌, refl, List, [], ◌∷◌, some, inl, inr, Bool-cases, Option-cases, leb, length,
  All, arith,
}
use coinext.Core.Decimal.{Decimals}
use coinext.Core.Clock
use coinext.Core.Time.{UnixNanos}
use coinext.Model.Ids.{InstrumentId, StrategyId}
use coinext.Model.Instrument
use coinext.Model.Instrument.{Instrument}
use coinext.Model.MarketData.{MarketEvent, ts_event}
use coinext.Cache
use coinext.Cache.{Cache}
use coinext.Exec as Exec
use coinext.Ports.Context
use coinext.Sim.Brokerage.{BrokerageModel}
use coinext.Sim.Intake as Sim
use coinext.Kernel.{Strategy, BacktestKernel}
use coinext.Kernel.Commands.{perform, process_outbox}
use coinext.Kernel.Build.{
  place, sort_by_key, expiries_of, add_all, first_cache, BacktestConfig, build,
}
use coinext.Kernel.Build.Run.{Ran, handled, run-build}
use coinext.Kernel.Step.Passing.{expiry_time}
use coinext.Kernel.Step.{finish, run}
use coinext.Kernel.Step.Ends.{left_of, rounds_end}
use coinext.Kernel.Step.Watching.{Watcher, IsStill, perform-IsStill, process_outbox-IsStill}

module _ {A : Type 0} (key : A → UnixNanos) where
  length-place : (x : A) (xs : List A) → length (place key x xs) ≡ length xs + 1
  unfolding place
  length-place x [] = refl
  length-place x (y ∷ ys) = elim (Bool-cases (leb (key x) (key y))) [
    | inl e ↦ rw e (omega arith)
    | inr e ↦ rw e (omega (arith, length-place x ys))
  ]

  length-sort_by_key : (xs : List A) → length (sort_by_key key xs) ≡ length xs
  unfolding sort_by_key
  length-sort_by_key [] = refl
  length-sort_by_key (x ∷ xs) =
      omega (arith, length-place x (sort_by_key key xs), length-sort_by_key xs)

module _ ⦃d : Decimals⦄ where
  length-expiries_of : (is : List Instrument) → length (expiries_of is) ≤ length is
  unfolding expiries_of
  length-expiries_of [] = omega arith
  length-expiries_of (i ∷ is) = elim (Option-cases (Instrument.expiry_ns i)) [
    | inl e ↦ rw e (omega (arith, length-expiries_of is))
    | inr (ts, e) ↦ rw e (omega (arith, length-expiries_of is))
  ]

  add_all-orders : (is : List Instrument) (c : Cache) → (add_all is c).orders ≡ c.orders
  unfolding add_all Cache.add_instrument
  add_all-orders [] c = refl
  add_all-orders (i ∷ is) c = add_all-orders is (Cache.add_instrument i c)

  first_cache-orders : (config : BacktestConfig) → (first_cache config).orders ≡ []
  unfolding first_cache Cache.set_account Cache.new
  first_cache-orders config = add_all-orders config.instruments Cache.new

  module _ {S : Type 0} where
    build-IsStill :
        (config : BacktestConfig) (id : StrategyId) (s : S) (events : List MarketEvent)
        → IsStill (build config id s events)
    unfolding build Clock.new Sim.new Context.new Exec.new
    build-IsStill config id s events = record {
      outbox = refl;
      resting = refl;
      reports = refl;
      timers = refl;
      orders = first_cache-orders config;
    }

    build_left :
        (config : BacktestConfig) (id : StrategyId) (s : S) (events : List MarketEvent)
        → left_of (build config id s events) ≤ length events + length config.instruments
    unfolding build
    build_left config id s events = omega (
      arith,
      length-sort_by_key ts_event events,
      length-sort_by_key (λ (e : UnixNanos × InstrumentId). e.0) (expiries_of config.instruments),
      length-expiries_of config.instruments,
    )

    -- A run of a strategy that only watches ends: more rounds than there are market events and
    -- instruments are enough, whatever their times.
    pub run-build_total :
        (strategy : Strategy S) (model : BrokerageModel) (n : ℕ) (config : BacktestConfig)
        (id : StrategyId) (s : S) (events : List MarketEvent)
        → Watcher strategy
        → length events + length config.instruments < n
        → (k : BacktestKernel S) × (run strategy model n (build config id s events) ≡ some k)
    unfolding run build
    run-build_total strategy model n config id s events watcher h =
        let k0 = build config id s events in
        let act = strategy.on_start s in
        let k1 = process_outbox strategy model (perform act k0) in
        let frame = handled strategy model k0 act in
        let still =
          process_outbox-IsStill strategy model watcher (perform act k0)
            (perform-IsStill act k0 (watcher.on_start s) (build-IsStill config id s events)) in
        let left : left_of k1 ≡ left_of k0 = rw (frame.events, frame.expiries) refl in
        let (k2, e) =
          rounds_end strategy model watcher n k1 still
            (omega (arith, left, build_left config id s events, h)) in
        (
          process_outbox strategy model (perform (strategy.on_stop k2.state) k2),
          rw (e, finish) refl,
        )

    -- A kernel built from market events in any order, none of them and no expiry before the start, for a
    -- strategy that only watches: with more rounds than there are market events and instruments the run
    -- ends, and then no event or expiry is left, the clock has reached the time of each event, and the
    -- risk limits are those of the configuration, with the kill switch off.
    pub run-build_ends :
        (strategy : Strategy S) (model : BrokerageModel) (n : ℕ) (config : BacktestConfig)
        (id : StrategyId) (s : S) (events : List MarketEvent)
        → Watcher strategy
        → length events + length config.instruments < n
        → All (λ ev. config.start_ns ≤ ts_event ev) events
        → All (λ e. config.start_ns ≤ expiry_time e) (expiries_of config.instruments)
        → (k : BacktestKernel S) × (run strategy model n (build config id s events) ≡ some k)
          × Ran config events k
    run-build_ends strategy model n config id s events watcher h a b =
        let (k, e) = run-build_total strategy model n config id s events watcher h in
        (k, e, run-build strategy model n config id s events k a b e)
