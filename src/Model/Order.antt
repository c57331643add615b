-- ===== src/Model/Order.antt =====
-- foundation/crates/coinext-model/src/order.rs: the event-sourced order. `apply` returns the new
-- order or an error; every check of the source stands before its first write, so an error leaves
-- the order as it was.
pub mod Table
pub mod Invariant
pub mod Replay
use coinext.Prelude.{
  Bool, true, false, not, Option, none, some, List, [], ◌∷◌, ◌++◌, String, any, if◌then◌else◌,
}
use coinext.Core.Error.{Result, ok, err, ◌>>=◌, ◌>>◌, fail_if, unwrap_or, invalid_transition}
use coinext.Core.Decimal.{Decimals}
use coinext.Core.Price
use coinext.Core.Price.{Price}
use coinext.Core.Quantity
use coinext.Core.Quantity.{Quantity}
use coinext.Core.Time.{UnixNanos}
use coinext.Model.Enums.{OrderSide, OrderType, TimeInForce, OrderStatus, status_beq, is_terminal}
use coinext.Model.Ids.{ClientOrderId, VenueOrderId, StrategyId, InstrumentId}
use coinext.Model.Fill.{Fill}

pub record OrderFlags : Type 0 where
  pub post_only : Bool
  pub reduce_only : Bool
  pub display_qty : Option Quantity

-- The data of `OrderEvent::Initialized`.
pub record Init : Type 0 where
  pub client_order_id : ClientOrderId
  pub instrument_id : InstrumentId
  pub side : OrderSide
  pub order_type : OrderType
  pub quantity : Quantity
  pub price : Option Price
  pub trigger : Option Price
  pub tif : TimeInForce
  pub flags : OrderFlags
  pub ts : UnixNanos

pub data OrderEvent : Type 0 where
  initialized : Init → OrderEvent
  submitted : UnixNanos → OrderEvent
  accepted : VenueOrderId → UnixNanos → OrderEvent
  pending_update : UnixNanos → OrderEvent
  updated : Option Quantity → Option Price → UnixNanos → OrderEvent
  pending_cancel : UnixNanos → OrderEvent
  partially_filled : Fill → OrderEvent
  filled : Fill → OrderEvent
  denied : String → UnixNanos → OrderEvent
  rejected : String → UnixNanos → OrderEvent
  canceled : UnixNanos → OrderEvent
  expired : UnixNanos → OrderEvent

pub record Order : Type 0 where
  pub strategy_id : StrategyId
  pub client_order_id : ClientOrderId
  pub venue_order_id : Option VenueOrderId
  pub instrument_id : InstrumentId
  pub side : OrderSide
  pub order_type : OrderType
  pub quantity : Quantity
  pub price : Option Price
  pub trigger : Option Price
  pub tif : TimeInForce
  pub flags : OrderFlags
  pub status : OrderStatus
  pub filled_qty : Quantity
  pub avg_px : Option Price
  pub ts_init : UnixNanos
  pub ts_last : UnixNanos
  pub events : List OrderEvent

-- `Order::new`, its arguments but the strategy in one record.
unfoldable pub new : StrategyId → Init → Order
new strategy_id i = record {
  strategy_id = strategy_id;
  client_order_id = i.client_order_id;
  venue_order_id = none;
  instrument_id = i.instrument_id;
  side = i.side;
  order_type = i.order_type;
  quantity = i.quantity;
  price = i.price;
  trigger = i.trigger;
  tif = i.tif;
  flags = i.flags;
  status = OrderStatus.initialized;
  filled_qty = Quantity.zero i.quantity.precision;
  avg_px = none;
  ts_init = i.ts;
  ts_last = i.ts;
  events = OrderEvent.initialized i ∷ [];
}

unfoldable pub leaves_qty : Order → Quantity
leaves_qty o =
    unwrap_or (Quantity.checked_sub o.quantity o.filled_qty) (Quantity.zero o.quantity.precision)

abbrev pub ensure : Order → List OrderStatus → Result (Unit {0})
ensure o allowed = fail_if (not (any (λ s. status_beq s o.status) allowed)) invalid_transition

-- `self.events.push(ev)` behind a change of the status and of the time.
abbrev move : Order → OrderStatus → UnixNanos → OrderEvent → Order
move o s ts ev = record o { status = s; ts_last = ts; events = o.events ++ (ev ∷ []) }

abbrev override {ℓ} : {A : Type ℓ} → Option A → A → A
override none a = a
override (some b) a = b

abbrev override? {ℓ} : {A : Type ℓ} → Option A → Option A → Option A
override? none o = o
override? (some b) o = some b

-- The statuses from which an event is taken.
abbrev open_statuses : List OrderStatus
open_statuses = OrderStatus.accepted ∷ OrderStatus.partially_filled ∷ []

abbrev fill_statuses : List OrderStatus
fill_statuses =
    OrderStatus.accepted ∷ OrderStatus.partially_filled ∷ OrderStatus.pending_update ∷ []

module _ ⦃d : Decimals⦄ where
  abbrev prev_notional : Option Price → Quantity → d.Decimal
  prev_notional none q = d.zero
  prev_notional (some p) q = d.mul (Price.as_decimal p) (Quantity.as_decimal q)

  -- The volume-weighted average price after a fill, before it is quantized.
  unfoldable pub average : Option Price → Quantity → Fill → Quantity → d.Decimal
  average avg_px filled_qty f new_filled =
      let total_qty = Quantity.as_decimal new_filled in
      let add_notional = d.mul (Price.as_decimal f.last_px) (Quantity.as_decimal f.last_qty) in
      if d.is_zero total_qty
      then Price.as_decimal f.last_px
      else d.div (d.add (prev_notional avg_px filled_qty) add_notional) total_qty

  unfoldable pub apply_fill : Order → Fill → Result Order
  apply_fill o f = do
    new_filled ← Quantity.checked_add o.filled_qty f.last_qty
    avg ← Price.from_decimal (average o.avg_px o.filled_qty f new_filled) f.last_px.precision
    ok (record o { avg_px = some avg; filled_qty = new_filled })

  -- The arm of the two fill events.
  unfoldable pub take_fill : Order → Fill → OrderEvent → Result Order
  take_fill o f ev = do
    ensure o fill_statuses
    o' ← apply_fill o f
    let s =
        if Quantity.is_zero (leaves_qty o')
        then OrderStatus.filled
        else OrderStatus.partially_filled
    ok (move o' s f.ts_event ev)

  unfoldable pub apply : Order → OrderEvent → Result Order
  apply o (OrderEvent.initialized i) = err invalid_transition
  apply o (OrderEvent.submitted ts) = do
    ensure o (OrderStatus.initialized ∷ [])
    ok (move o OrderStatus.submitted ts (OrderEvent.submitted ts))
  apply o (OrderEvent.accepted v ts) = do
    ensure o (OrderStatus.submitted ∷ [])
    let o' = record o { venue_order_id = some v }
    ok (move o' OrderStatus.accepted ts (OrderEvent.accepted v ts))
  apply o (OrderEvent.pending_update ts) = do
    ensure o open_statuses
    ok (move o OrderStatus.pending_update ts (OrderEvent.pending_update ts))
  apply o (OrderEvent.updated q p ts) = do
    ensure o (OrderStatus.pending_update ∷ [])
    let o' = record o { quantity = override q o.quantity; price = override? p o.price }
    let s =
        if Quantity.is_positive o.filled_qty
        then OrderStatus.partially_filled
        else OrderStatus.accepted
    ok (move o' s ts (OrderEvent.updated q p ts))
  apply o (OrderEvent.pending_cancel ts) = do
    ensure o fill_statuses
    ok (move o OrderStatus.pending_cancel ts (OrderEvent.pending_cancel ts))
  apply o (OrderEvent.partially_filled f) = take_fill o f (OrderEvent.partially_filled f)
  apply o (OrderEvent.filled f) = take_fill o f (OrderEvent.filled f)
  apply o (OrderEvent.denied r ts) = do
    ensure o (OrderStatus.initialized ∷ [])
    ok (move o OrderStatus.denied ts (OrderEvent.denied r ts))
  apply o (OrderEvent.rejected r ts) = do
    ensure o (OrderStatus.submitted ∷ OrderStatus.pending_update ∷ [])
    ok (move o OrderStatus.rejected ts (OrderEvent.rejected r ts))
  apply o (OrderEvent.canceled ts) = do
    ensure o (OrderStatus.accepted ∷ OrderStatus.partially_filled ∷ OrderStatus.pending_cancel ∷ [])
    ok (move o OrderStatus.canceled ts (OrderEvent.canceled ts))
  apply o (OrderEvent.expired ts) = do
    ensure o open_statuses
    ok (move o OrderStatus.expired ts (OrderEvent.expired ts))
