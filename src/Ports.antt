-- ===== src/Ports.antt =====
-- foundation/crates/coinext-ports/src/commands.rs and traits.rs: the values that cross the ports, and
-- the interfaces through which the execution engine calls the risk gate, the portfolio and the venue.
pub mod Factory
pub mod Context
pub mod Bus
use coinext.Prelude.{ℕ, Option, none, String}
use coinext.Core.Decimal.{Decimals}
use coinext.Core.Price.{Price}
use coinext.Core.Quantity.{Quantity}
use coinext.Core.Currency.{Currency}
use coinext.Core.Money.{Money}
use coinext.Model.Ids.{ClientOrderId, VenueOrderId, InstrumentId}
use coinext.Model.Fill.{Fill}
use coinext.Model.Order.{Order}
use coinext.Model.Position.{Position}
use coinext.Model.Instrument.{Instrument}
use coinext.Cache.{Cache}

pub data ExecutionReport : Type 0 where
  accepted : ClientOrderId → VenueOrderId → ExecutionReport
  pending_update : ClientOrderId → ExecutionReport
  modified : ClientOrderId → Option Quantity → Option Price → ExecutionReport
  pending_cancel : ClientOrderId → ExecutionReport
  fill : Fill → ExecutionReport
  rejected : ClientOrderId → String → ExecutionReport
  canceled : ClientOrderId → ExecutionReport
  expired : ClientOrderId → ExecutionReport

unfoldable pub client_order_id : ExecutionReport → ClientOrderId
client_order_id (accepted id v) = id
client_order_id (pending_update id) = id
client_order_id (modified id q p) = id
client_order_id (pending_cancel id) = id
client_order_id (fill f) = f.client_order_id
client_order_id (rejected id r) = id
client_order_id (canceled id) = id
client_order_id (expired id) = id

-- A strategy's intents.
pub data StrategyCommand : Type 0 where
  submit : Order → StrategyCommand
  cancel : ClientOrderId → StrategyCommand
  modify : ClientOrderId → Option Quantity → Option Price → StrategyCommand

pub data DenyReason : Type 0 where
  max_position_exceeded max_gross_exposure_exceeded max_order_notional : DenyReason
  order_rate_throttled min_notional kill_switch_engaged instrument_halted : DenyReason
  insufficient_margin t_plus_one price_limit : DenyReason

-- `Display`
unfoldable pub to_text : DenyReason → String
to_text max_position_exceeded = "MaxPositionExceeded"
to_text max_gross_exposure_exceeded = "MaxGrossExposureExceeded"
to_text max_order_notional = "MaxOrderNotional"
to_text order_rate_throttled = "OrderRateThrottled"
to_text min_notional = "MinNotional"
to_text kill_switch_engaged = "KillSwitchEngaged"
to_text instrument_halted = "InstrumentHalted"
to_text insufficient_margin = "InsufficientMargin"
to_text t_plus_one = "TPlusOne"
to_text price_limit = "PriceLimit"

pub data RiskDecision : Type 0 where
  approved : RiskDecision
  denied : DenyReason → RiskDecision

pub record RiskLimits ⦃d : Decimals⦄ : Type 0 where
  pub max_position_qty : Option Quantity
  pub max_position_notional : Option Money
  pub max_order_notional : Option Money
  pub max_orders_per_sec : Option ℕ
  pub max_gross_exposure : Option Money
  pub leverage : Option d.Decimal
  pub maintenance_margin_rate : Option d.Decimal

module _ ⦃d : Decimals⦄ where
  unfoldable pub unlimited : RiskLimits
  unlimited = record {
    max_position_qty = none;
    max_position_notional = none;
    max_order_notional = none;
    max_orders_per_sec = none;
    max_gross_exposure = none;
    leverage = none;
    maintenance_margin_rate = none;
  }

-- `trait Portfolio`, on the store that it shares with the engine.
pub record Portfolio ⦃d : Decimals⦄ : Type 0 where
  pub position : Cache → InstrumentId → Option Position
  pub net_exposure : Cache → InstrumentId → Money
  pub unrealized_pnl : Cache → InstrumentId → Money
  pub realized_pnl : Cache → InstrumentId → Money
  pub gross_exposure : Cache → Money
  pub balance : Cache → Currency → Money
  pub equity : Cache → Money

-- `trait RiskEngine`, its answer for the present state of the kill switch.
pub record RiskEngine ⦃d : Decimals⦄ : Type 0 where
  pub check : Cache → Order → Portfolio → Instrument → RiskDecision

-- What the engine calls of the venue.
pub record Venue ⦃d : Decimals⦄ : Type 1 where
  pub State : Type 0
  pub on_submit : Cache → Order → State → State
  pub on_cancel : ClientOrderId → State → State
