-- ===== src/Kernel/Build.antt =====
-- backtesting-simulation/crates/coinext-kernel/src/backtest.rs and types.rs: `BacktestConfig` and
-- `BacktestKernel::build`. The brokerage model is a parameter of the run, and the venue's name has no
-- part in what the model computes.
pub mod Run
pub mod Total
use coinext.Prelude.{ℕ, List, [], ◌∷◌, Option, some, none, leb, if◌then◌else◌, String}
use coinext.Core.Decimal.{Decimals}
use coinext.Core.Clock
use coinext.Core.Currency.{Currency}
use coinext.Core.Money.{Money}
use coinext.Core.Time.{UnixNanos}
use coinext.Model.Account
use coinext.Model.Ids.{InstrumentId, StrategyId}
use coinext.Model.Instrument
use coinext.Model.Instrument.{Instrument}
use coinext.Model.MarketData.{MarketEvent, ts_event}
use coinext.Cache
use coinext.Cache.{Cache}
use coinext.Ports.{RiskLimits}
use coinext.Ports.Context
use coinext.RiskGate
use coinext.Exec as Exec
use coinext.Sim.Intake as Sim
use coinext.Kernel.{BacktestKernel}

-- `sort_by_key`, which is stable.
unfoldable pub place : {A : Type 0} → (A → UnixNanos) → A → List A → List A
place key x [] = x ∷ []
place key x (y ∷ ys) = if leb (key x) (key y) then x ∷ y ∷ ys else y ∷ place key x ys

unfoldable pub sort_by_key : {A : Type 0} → (A → UnixNanos) → List A → List A
unfolding place
sort_by_key key [] = []
sort_by_key key (x ∷ xs) = place key x (sort_by_key key xs)

module _ ⦃d : Decimals⦄ where
  pub record BacktestConfig : Type 0 where
    pub instruments : List Instrument
    pub settle : Currency
    pub starting_balance : Money
    pub risk : RiskLimits
    pub start_ns : UnixNanos

  abbrev pub dated :
      Option UnixNanos
      → InstrumentId
      → List (UnixNanos × InstrumentId)
      → List (UnixNanos × InstrumentId)
  dated none id rest = rest
  dated (some ts) id rest = (ts, id) ∷ rest

  -- The expiries of the instruments that have one.
  unfoldable pub expiries_of : List Instrument → List (UnixNanos × InstrumentId)
  unfolding Instrument.expiry_ns Instrument.id_of
  expiries_of [] = []
  expiries_of (i ∷ is) = dated (Instrument.expiry_ns i) (Instrument.id_of i) (expiries_of is)

  unfoldable pub add_all : List Instrument → Cache → Cache
  unfolding Cache.add_instrument
  add_all [] c = c
  add_all (i ∷ is) c = add_all is (Cache.add_instrument i c)

  unfoldable pub first_cache : BacktestConfig → Cache
  unfolding add_all Cache.new Cache.set_account Account.new Account.set_balance
  first_cache config =
      Cache.set_account
        (Account.set_balance (Account.new "BACKTEST" config.settle) config.starting_balance)
        (add_all config.instruments Cache.new)

  unfoldable pub build :
      {S : Type 0} → BacktestConfig → StrategyId → S → List MarketEvent → BacktestKernel S
  unfolding Clock.new Exec.new RiskGate.new Sim.new Context.new first_cache sort_by_key expiries_of
      ts_event
  build config id state events = record {
    clock = Clock.new config.start_ns;
    engine = Exec.new (first_cache config);
    risk = RiskGate.new config.risk;
    settle = config.settle;
    sim = Sim.new;
    state = state;
    ctx = Context.new id;
    events = sort_by_key ts_event events;
    expiries = sort_by_key (λ e. e.0) (expiries_of config.instruments);
    maintenance_margin_rate = config.risk.maintenance_margin_rate;
    result = record { fills = 0; fills_log = []; orders_submitted = 0; orders_denied = 0 };
  }
