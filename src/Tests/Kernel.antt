-- ===== src/Tests/Kernel.antt =====
-- The theorems on the backtest kernel at concrete inputs.
use coinext.Prelude.{
  ℕ, ◌+◌, ◌≡◌, refl, none, some, List, [], ◌∷◌, arith, All, ◌≤◌, nat_beq, if◌then◌else◌,
}
use coinext.Prelude.Int.{pos}
use coinext.Model.Instrument.{Instrument}
use coinext.Model.MarketData.{MarketEvent, ts_event}
use coinext.Ports.{unlimited}
use coinext.Kernel.{done, submits, Strategy, BacktestKernel}
use coinext.Kernel.Build.{BacktestConfig, build, expiries_of}
use coinext.Kernel.Build.Run.{Ran, build-OnTime}
use coinext.Kernel.Build.Total.{run-build_total, run-build_ends}
use coinext.Kernel.Step.{run, round, step}
use coinext.Kernel.Step.Passing.{expiry_time}
use coinext.Kernel.Step.Time.{OnTime, InTime, step-InTime}
use coinext.Kernel.Step.Watching.{IsWatching, Watcher}
use coinext.Model.Order
use coinext.Tests.Sample.{trade, init, sample_decimals, btc_usdt, usdt, price, quantity, model}

-- A contract on the sample pair that expires at 40.
abbrev contract : Instrument
contract = Instrument.futures_contract (record {
  id = btc_usdt;
  underlying = none;
  quote = usdt;
  settlement = usdt;
  price_precision = 2;
  size_precision = 3;
  price_increment = price 1;
  size_increment = quantity 1;
  min_notional = none;
  multiplier = record { raw = pos 1; precision = 0 };
  maker_fee = (pos 0, 0);
  taker_fee = (pos 0, 0);
  expiry_ns = 40;
})

abbrev config : BacktestConfig
config = record {
  instruments = contract ∷ [];
  settle = usdt;
  starting_balance = record { raw = pos 100000; currency = usdt };
  risk = unlimited;
  start_ns = 5;
}

-- Buys at the first trade, and counts the trades.
abbrev buyer : Strategy ℕ
buyer = record {
  on_start = λ s. done s;
  on_quote = λ q s. done s;
  on_trade = λ t s. if nat_beq s 0 then submits (Order.new "s" init) (done 1) else done (s + 1);
  on_bar = λ b s. done s;
  on_book = λ b s. done s;
  on_order_event = λ ev s. done s;
  on_order_filled = λ f s. done s;
  on_timer = λ t s. done s;
  on_stop = λ s. done s;
}

abbrev watcher : Strategy ℕ
watcher = record buyer { on_trade = λ t s. done (s + 1) }

watcher_watches : Watcher watcher
unfolding IsWatching
watcher_watches = record {
  on_start = λ s. tt;
  on_quote = λ q s. tt;
  on_trade = λ t s. tt;
  on_bar = λ b s. tt;
  on_book = λ b s. tt;
  on_order_event = λ ev s. tt;
  on_order_filled = λ f s. tt;
}

abbrev events : List MarketEvent
events = trade 25 11000 ∷ trade 10 10000 ∷ []

abbrev start : BacktestKernel ℕ
start = build config "s" 0 events

not_early : All (λ ev. 5 ≤ ts_event ev) events
unfolding ts_event
not_early = (omega arith, (omega arith, tt))

dated : All (λ e. 5 ≤ expiry_time e) (expiries_of config.instruments)
unfolding expiries_of
dated = (omega arith, tt)

first_step : step buyer model start ≡ some (round buyer model 10 start)
unfolding step build
first_step = refl

-- The first step is at 10, the time of the earlier trade.
step-InTime_example :
    OnTime (round buyer model 10 start) × InTime start (round buyer model 10 start)
step-InTime_example =
    step-InTime buyer model start (round buyer model 10 start)
      (build-OnTime config "s" 0 events not_early dated) first_step

run-build_total_example :
    (k : BacktestKernel ℕ) × (run watcher model 4 (build config "s" 0 events) ≡ some k)
run-build_total_example =
    run-build_total watcher model 4 config "s" 0 events watcher_watches (omega arith)

run-build_ends_example :
    (k : BacktestKernel ℕ) × (run watcher model 4 (build config "s" 0 events) ≡ some k)
    × Ran config events k
run-build_ends_example =
    run-build_ends watcher model 4 config "s" 0 events watcher_watches (omega arith) not_early dated
