-- ===== src/Kernel.antt =====
-- backtesting-simulation/crates/coinext-kernel/src/backtest.rs: the state of the deterministic kernel,
-- and a strategy as the calls that its handlers make.
pub mod Commands
pub mod Settle
pub mod Step
pub mod Build
pub mod Live
use coinext.Prelude.{ℕ, List, Option, String}
use coinext.Prelude.Int.{ℤ}
use coinext.Core.Decimal.{Decimals}
use coinext.Core.Price.{Price}
use coinext.Core.Quantity.{Quantity}
use coinext.Core.Currency.{Currency}
use coinext.Core.Time.{UnixNanos}
use coinext.Core.Clock.{HistoricalClock, TimerEvent}
use coinext.Model.Ids.{ClientOrderId, InstrumentId}
use coinext.Model.Fill.{Fill}
use coinext.Model.MarketData.{MarketEvent, QuoteTick, TradeTick, Bar}
use coinext.Model.Order.{Order, OrderEvent}
use coinext.Model.OrderBook.{OrderBook}
use coinext.Cache.{Cache}
use coinext.Ports.Context.{StrategyContext}
use coinext.Ports.Factory.{OrderFactory}
use coinext.RiskGate.{RiskGate}
use coinext.Exec.{ExecutionEngine}
use coinext.Sim.Brokerage.{BrokerageModel}
use coinext.Sim.Intake.{SimState}

-- What a handler does with its context: it reads the store and the time, sets and cancels timers, uses
-- the order factory, and queues commands; then it returns its own state.
pub data Action ⦃d : Decimals⦄ (S : Type 0) : Type 0 where
  done : S → Action S
  reads : (Cache → UnixNanos → Action S) → Action S
  sets_timer : String → UnixNanos → (ℕ → Action S) → Action S
  cancels_timer : ℕ → Action S → Action S
  mints : (OrderFactory → OrderFactory) → (OrderFactory → Action S) → Action S
  submits : Order → Action S → Action S
  cancels : ClientOrderId → Action S → Action S
  modifies : ClientOrderId → Option Quantity → Option Price → Action S → Action S

-- `trait Strategy`
pub record Strategy ⦃d : Decimals⦄ (S : Type 0) : Type 0 where
  pub on_start : S → Action S
  pub on_quote : QuoteTick → S → Action S
  pub on_trade : TradeTick → S → Action S
  pub on_bar : Bar → S → Action S
  pub on_book : OrderBook → S → Action S
  pub on_order_event : OrderEvent → S → Action S
  pub on_order_filled : Fill → S → Action S
  pub on_timer : TimerEvent → S → Action S
  pub on_stop : S → Action S

-- The counters and the log of the fills; the equity curve, which is in floating point, is left out.
pub record RunResult : Type 0 where
  pub fills : ℕ
  pub fills_log : List (UnixNanos × (String × (ℤ × (Quantity × Price))))
  pub orders_submitted : ℕ
  pub orders_denied : ℕ

-- The events and the expiries are those that the cursors have not passed. The bus has no part in the
-- state of the rest, and is left out.
pub record BacktestKernel ⦃d : Decimals⦄ (S : Type 0) : Type 0 where
  pub clock : HistoricalClock
  pub engine : ExecutionEngine
  pub risk : RiskGate
  pub settle : Currency
  pub sim : SimState
  pub state : S
  pub ctx : StrategyContext
  pub events : List MarketEvent
  pub expiries : List (UnixNanos × InstrumentId)
  pub maintenance_margin_rate : Option d.Decimal
  pub result : RunResult
