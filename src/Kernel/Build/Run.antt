-- ===== src/Kernel/Build/Run.antt =====
-- backtesting-simulation/crates/coinext-kernel/src/backtest.rs: `build`, then `run`.
use coinext.Prelude.{
  ℕ, ◌≤◌, ◌≡◌, ◌∙◌, refl, sym, subst, List, [], ◌∷◌, some, All, arith, leb, Bool-cases, inl, inr,
  Option-cases,
}
use coinext.Prelude.Maps.{some_inj}
use coinext.Core.Decimal.{Decimals}
use coinext.Core.Clock
use coinext.Core.Time.{UnixNanos}
use coinext.Model.Ids.{StrategyId}
use coinext.Model.MarketData.{MarketEvent, ts_event}
use coinext.RiskGate
use coinext.Sim.Brokerage.{BrokerageModel}
use coinext.Kernel.{Action, Strategy, BacktestKernel}
use coinext.Kernel.Commands.{perform, process_outbox}
use coinext.Kernel.Commands.Frame.{Frame, Frame-trans, perform-Frame, process_outbox-Frame}
use coinext.Kernel.Step.{rounds, finish, run}
use coinext.Kernel.Step.Passing.{From, expiry_time}
use coinext.Kernel.Step.Time.{OnTime, IsIdle, ReachedFrom, rounds_take_all}
use coinext.Kernel.Build.{place, sort_by_key, expiries_of, BacktestConfig, build}

module _ {A : Type 0} (key : A → UnixNanos) where
  All-place : (P : A → Type 0) (x : A) (xs : List A) → P x → All P xs → All P (place key x xs)
  unfolding place
  All-place P x [] p a = (p, tt)
  All-place P x (y ∷ ys) p a = elim (Bool-cases (leb (key x) (key y))) [
    | inl e ↦ rw e (p, a)
    | inr e ↦ rw e (a.0, All-place P x ys p a.1)
  ]

  All-sort_by_key : (P : A → Type 0) (xs : List A) → All P xs → All P (sort_by_key key xs)
  unfolding sort_by_key
  All-sort_by_key P [] a = tt
  All-sort_by_key P (x ∷ xs) a = All-place P x (sort_by_key key xs) a.0 (All-sort_by_key P xs a.1)

  All-place_back : (P : A → Type 0) (x : A) (xs : List A) → All P (place key x xs) → P x × All P xs
  unfolding place
  All-place_back P x [] a = a
  All-place_back P x (y ∷ ys) a = elim (Bool-cases (leb (key x) (key y))) [
    | inl e ↦ rw (e, place) at a
    | inr e ↦ let b = rw (e, place) at a in let c = All-place_back P x ys b.1 in (c.0, (b.0, c.1))
  ]

  All-sort_by_key_back : (P : A → Type 0) (xs : List A) → All P (sort_by_key key xs) → All P xs
  unfolding sort_by_key
  All-sort_by_key_back P [] a = tt
  All-sort_by_key_back P (x ∷ xs) a =
      let b = All-place_back P x (sort_by_key key xs) a in (b.0, All-sort_by_key_back P xs b.1)

  From-place :
      (now : UnixNanos) (x : A) (xs : List A)
      → now ≤ key x
      → From key now xs
      → From key now (place key x xs)
  unfolding place From
  From-place now x [] le f = (le, tt)
  From-place now x (y ∷ ys) le f = elim (Bool-cases (leb (key x) (key y))) [
    | inl e ↦ rw e (le, (ground arith, f.1))
    | inr e ↦ rw e (f.0, From-place (key y) x ys (ground arith) f.1)
  ]

  -- Sorting puts values that are all at or after a time in order from it.
  From-sort_by_key :
      (now : UnixNanos) (xs : List A)
      → All (λ x. now ≤ key x) xs
      → From key now (sort_by_key key xs)
  unfolding sort_by_key From
  From-sort_by_key now [] a = tt
  From-sort_by_key now (x ∷ xs) a =
      From-place now x (sort_by_key key xs) a.0 (From-sort_by_key now xs a.1)

module _ ⦃d : Decimals⦄ {S : Type 0} where
  OnTime-Frame : {k l : BacktestKernel S} → Frame k l → OnTime k → OnTime l
  OnTime-Frame {k} {l} f o = record {
    events =
        subst (λ a. From ts_event a l.events) (sym f.now)
          (subst (From ts_event k.clock.now) (sym f.events) o.events);
    expiries =
        subst (λ a. From expiry_time a l.expiries) (sym f.now)
          (subst (From expiry_time k.clock.now) (sym f.expiries) o.expiries);
  }

  pub build-OnTime :
      (config : BacktestConfig) (id : StrategyId) (s : S) (events : List MarketEvent)
      → All (λ ev. config.start_ns ≤ ts_event ev) events
      → All (λ e. config.start_ns ≤ expiry_time e) (expiries_of config.instruments)
      → OnTime (build config id s events)
  unfolding build Clock.new
  build-OnTime config id s events a b = record {
    events = From-sort_by_key ts_event config.start_ns events a;
    expiries = From-sort_by_key expiry_time config.start_ns (expiries_of config.instruments) b;
  }

  -- What a finished run has done.
  pub record Ran (config : BacktestConfig) (events : List MarketEvent) (k : BacktestKernel S)
      : Type 0 where
    pub events_left : k.events ≡ []
    pub expiries_left : k.expiries ≡ []
    pub start : config.start_ns ≤ k.clock.now
    pub reached : All (λ ev. ts_event ev ≤ k.clock.now) events
    pub limits : k.risk ≡ RiskGate.new config.risk

  Ran-on :
      (config : BacktestConfig) (events : List MarketEvent) (k0 k1 k2 : BacktestKernel S)
      {k3 : BacktestKernel S}
      → Frame k0 k1
      → IsIdle k2 × ReachedFrom k1 k2
      → Frame k2 k3
      → k0.clock.now ≡ config.start_ns
      → k0.events ≡ sort_by_key ts_event events
      → k0.risk ≡ RiskGate.new config.risk
      → Ran config events k3
  Ran-on config events k0 k1 k2 {k3} a (idle, r) b now evs risk =
      let last = b.now in
      record {
        events_left = b.events ∙ idle.events;
        expiries_left = b.expiries ∙ idle.expiries;
        start = omega (arith, r.now, a.now, b.now, now);
        reached =
            All-sort_by_key_back ts_event (λ ev. ts_event ev ≤ k3.clock.now) events
              (subst (λ t. All (λ ev. ts_event ev ≤ t) (sort_by_key ts_event events)) (sym last)
                (subst (All (λ ev. ts_event ev ≤ k2.clock.now)) (a.events ∙ evs) r.events));
        limits = b.risk ∙ r.risk ∙ a.risk ∙ risk;
      }

module _ ⦃d : Decimals⦄ {S : Type 0} (strategy : Strategy S) (model : BrokerageModel) where
  -- A handler, and the commands that it queued.
  pub handled :
      (k : BacktestKernel S) (act : Action S)
      → Frame k (process_outbox strategy model (perform act k))
  handled k act = Frame-trans (perform-Frame act k) (process_outbox-Frame strategy model _)

  -- A kernel built from market events in any order, none of them and no expiry before the start, and
  -- run by any strategy, if the run ends within its bound on rounds: no event or expiry is left, the clock has reached the
  -- time of each event, and the risk limits are those of the configuration, with the kill switch off.
  pub run-build :
      (n : ℕ) (config : BacktestConfig) (id : StrategyId) (s : S) (events : List MarketEvent)
      (k : BacktestKernel S)
      → All (λ ev. config.start_ns ≤ ts_event ev) events
      → All (λ e. config.start_ns ≤ expiry_time e) (expiries_of config.instruments)
      → run strategy model n (build config id s events) ≡ some k
      → Ran config events k
  unfolding run build Clock.new sort_by_key RiskGate.new
  run-build n config id s events k a b e =
      let k0 = build config id s events in
      let start = handled k0 (strategy.on_start k0.state) in
      let k1 = process_outbox strategy model (perform (strategy.on_start k0.state) k0) in
      elim (Option-cases (rounds strategy model n k1)) [
        | inl q ↦ cc (rw (q, finish) at e)
        | inr (k2, q) ↦
            let r =
              rounds_take_all strategy model n k1 k2
                (OnTime-Frame start (build-OnTime config id s events a b)) q in
            subst (Ran config events) (some_inj (rw (q, finish) at e)) (
              Ran-on config events k0 k1 k2 start r (handled k2 (strategy.on_stop k2.state)) refl
                refl refl)
      ]
