-- ===== src/Ports/Factory.antt =====
-- foundation/crates/coinext-ports/src/context.rs: `OrderFactory`, which gives every order its client
-- order id.
pub mod Distinct
use Prim.Native.String.{◌++◌}
use coinext.Prelude.{ℕ, ◌+◌, ◌%◌, ◌^◌, false, Option, none, some}
use coinext.Prelude.Text.{padded}
use coinext.Core.Price.{Price}
use coinext.Core.Quantity.{Quantity}
use coinext.Core.Time.{UnixNanos}
use coinext.Model.Enums.{OrderSide, OrderType, TimeInForce}
use coinext.Model.Ids.{StrategyId, ClientOrderId, InstrumentId}
use coinext.Model.Order
use coinext.Model.Order.{Order, OrderFlags, Init}

pub record OrderFactory : Type 0 where
  pub strategy_id : StrategyId
  pub seq : ℕ

unfoldable pub new : StrategyId → OrderFactory
new id = record { strategy_id = id; seq = 0 }

unfoldable pub restore_seq : ℕ → OrderFactory → OrderFactory
restore_seq seq f = record f { seq = seq }

abbrev pub id_of : StrategyId → ℕ → ClientOrderId
id_of strategy seq = strategy ++ ("-" ++ padded 20 seq)

-- `seq` is a u64.
unfoldable pub next_id : OrderFactory → OrderFactory × ClientOrderId
next_id f = let seq = (f.seq + 1) % 2 ^ 64 in (record f { seq = seq }, id_of f.strategy_id seq)

abbrev pub no_flags : OrderFlags
no_flags = record { post_only = false; reduce_only = false; display_qty = none }

-- An order under the next id; the id in the given data is replaced.
abbrev mint : OrderFactory → Init → OrderFactory × Order
mint f i =
    let (f', id) = next_id f in (f', Order.new f.strategy_id (record i { client_order_id = id }))

module _ (f : OrderFactory) (instrument_id : InstrumentId) (side : OrderSide) (qty : Quantity) where
  abbrev init_of :
      OrderType → Option Price → Option Price → TimeInForce → OrderFlags → UnixNanos → Init
  init_of order_type price trigger tif flags ts = record {
    client_order_id = "";
    instrument_id = instrument_id;
    side = side;
    order_type = order_type;
    quantity = qty;
    price = price;
    trigger = trigger;
    tif = tif;
    flags = flags;
    ts = ts;
  }

  unfoldable pub market : UnixNanos → OrderFactory × Order
  unfolding next_id Order.new
  market ts = mint f (init_of OrderType.market none none TimeInForce.ioc no_flags ts)

  unfoldable pub limit : Price → TimeInForce → OrderFlags → UnixNanos → OrderFactory × Order
  unfolding next_id Order.new
  limit price tif flags ts = mint f (init_of OrderType.limit (some price) none tif flags ts)

  unfoldable pub stop_market : Price → UnixNanos → OrderFactory × Order
  unfolding next_id Order.new
  stop_market trigger ts =
      mint f (init_of OrderType.stop_market none (some trigger) TimeInForce.gtc no_flags ts)

  unfoldable pub stop_limit : Price → Price → UnixNanos → OrderFactory × Order
  unfolding next_id Order.new
  stop_limit trigger price ts =
      mint f (init_of OrderType.stop_limit (some price) (some trigger) TimeInForce.gtc no_flags ts)

  unfoldable pub trailing_stop : Price → UnixNanos → OrderFactory × Order
  unfolding next_id Order.new
  trailing_stop trigger ts =
      mint f
        (init_of OrderType.trailing_stop_market none (some trigger) TimeInForce.gtc no_flags ts)
