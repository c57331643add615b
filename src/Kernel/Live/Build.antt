-- ===== src/Kernel/Live/Build.antt =====
-- backtesting-simulation/crates/coinext-kernel/src/live.rs and types.rs: `Environment` and
-- `LiveKernel::build`.
use coinext.Prelude.{Bool, true, false, Option, some, none, if◌then◌else◌}
use coinext.Core.Decimal.{Decimals}
use coinext.Core.SystemClock
use coinext.Model.Account
use coinext.Model.Ids.{StrategyId}
use coinext.Cache
use coinext.Cache.{Cache}
use coinext.Exec as Exec
use coinext.Ports.Context
use coinext.RiskGate
use coinext.Kernel.Build.{BacktestConfig, add_all}
use coinext.Kernel.Live.{ExecutionClient, DataClient, LiveKernel}

pub data Environment : Type 0 where
  backtest sandbox live : Environment

unfoldable pub is_live : Environment → Bool
is_live Environment.backtest = false
is_live _ = true

module _ ⦃d : Decimals⦄ where
  unfoldable pub first_cache : BacktestConfig → Cache
  unfolding add_all Cache.new Cache.set_account Account.new Account.set_balance
  first_cache config =
      Cache.set_account
        (Account.set_balance (Account.new "LIVE" config.settle) config.starting_balance)
        (add_all config.instruments Cache.new)

  module _ {S : Type 0} (exec : ExecutionClient) (data_port : DataClient) where
    -- `none` where the code panics.
    unfoldable pub build :
        Environment
        → BacktestConfig
        → StrategyId
        → S
        → exec.State
        → data_port.State
        → Option (LiveKernel S exec data_port)
    unfolding is_live first_cache SystemClock.new Exec.new RiskGate.new Context.new
    build env config id state client port =
        let k : LiveKernel S exec data_port = record {
          clock = SystemClock.new;
          engine = Exec.new (first_cache config);
          risk = RiskGate.new config.risk;
          settle = config.settle;
          state = state;
          ctx = Context.new id;
          exec_client = client;
          data_client = port;
        } in
        if is_live env then some k else none
