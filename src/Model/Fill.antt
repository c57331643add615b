-- ===== src/Model/Fill.antt =====
-- foundation/crates/coinext-model/src/fill.rs: one execution against an order.
use coinext.Core.Price.{Price}
use coinext.Core.Quantity.{Quantity}
use coinext.Core.Money.{Money}
use coinext.Core.Time.{UnixNanos}
use coinext.Model.Enums.{OrderSide, LiquiditySide}
use coinext.Model.Ids.{TradeId, ClientOrderId, VenueOrderId, InstrumentId}

pub record Fill : Type 0 where
  pub trade_id : TradeId
  pub client_order_id : ClientOrderId
  pub venue_order_id : VenueOrderId
  pub instrument_id : InstrumentId
  pub side : OrderSide
  pub last_px : Price
  pub last_qty : Quantity
  pub fee : Money
  pub liquidity : LiquiditySide
  pub ts_event : UnixNanos
  pub ts_init : UnixNanos
