-- ===== src/Tests/Model.antt =====
-- foundation/crates/coinext-model: the theorems on orders, books, positions and accounts at concrete
-- inputs.
mod Books
use coinext.Prelude.{
  ℕ, ◌≡◌, refl, ◌≤◌, ◌<◌, ◌^◌, Bool, true, false, Option, none, some, List, [], ◌∷◌, arith, ◌↔◌,
  ◌≢◌, inl, inr,
}
use coinext.Prelude.Int.{ℤ, pos, ◌+ℤ◌, ◌-ℤ◌, ◌≤ℤ◌, ◌<ℤ◌}
use coinext.Core.Error.{ok, err, invalid_transition}
use coinext.Core.Price
use coinext.Core.Quantity
use coinext.Model.Enums.{OrderStatus}
use coinext.Model.Order
use coinext.Model.Order.{Order, OrderEvent}
use coinext.Model.Order.Table.{Edge, Kind, apply-Edge, apply_refused_iff}
use coinext.Model.Order.Replay.{feed, replay, total_filled, replay-feed, filled-feed}
use coinext.Model.Order.Invariant as OrderInvariant
use coinext.Tests.Sample.{sample_decimals, init, fill}

abbrev fresh : Order
fresh = record {
  strategy_id = "s";
  client_order_id = "c-1";
  venue_order_id = none;
  instrument_id = init.instrument_id;
  side = init.side;
  order_type = init.order_type;
  quantity = init.quantity;
  price = none;
  trigger = none;
  tif = init.tif;
  flags = init.flags;
  status = OrderStatus.initialized;
  filled_qty = record { raw = pos 0; precision = 3 };
  avg_px = none;
  ts_init = 1;
  ts_last = 1;
  events = OrderEvent.initialized init ∷ [];
}

abbrev sent : Order
sent = record fresh {
  status = OrderStatus.submitted;
  ts_last = 2;
  events = OrderEvent.initialized init ∷ OrderEvent.submitted 2 ∷ [];
}

apply_refused_iff_example :
    (Order.apply fresh (OrderEvent.canceled 2) ≡ err invalid_transition)
    ↔ ((s : OrderStatus) → ¬ Edge OrderStatus.initialized Kind.canceled s)
apply_refused_iff_example = apply_refused_iff fresh (OrderEvent.canceled 2)

-- A life of an order: accepted, filled, and a second report of the fill, which is refused.
abbrev life : List OrderEvent
life =
    OrderEvent.submitted 2
    ∷ OrderEvent.accepted "v-1" 3
    ∷ OrderEvent.filled fill
    ∷ OrderEvent.filled fill
    ∷ []

replay-feed_example :
    replay "s" (feed (Order.new "s" init) life).events ≡ ok (feed (Order.new "s" init) life)
replay-feed_example = replay-feed "s" init life

filled-feed_example :
    (feed (Order.new "s" init) life).filled_qty.raw
    ≡ total_filled (feed (Order.new "s" init) life).events
filled-feed_example = filled-feed "s" init life

feed-IsValid_example :
    OrderInvariant.IsValid (feed (Order.new "s" init) life)
    × OrderInvariant.Reached (feed (Order.new "s" init) life)
feed-IsValid_example = OrderInvariant.feed-IsValid "s" init life

abbrev open_order : Order
open_order = record fresh { status = OrderStatus.accepted; venue_order_id = some "v-1" }

open_order-IsValid : OrderInvariant.IsValid open_order
open_order-IsValid = ground arith

abbrev filled : Order
filled = record open_order {
  status = OrderStatus.filled;
  filled_qty = record { raw = pos 2000; precision = 3 };
  avg_px = some (record { raw = pos 10000; precision = 2 });
  ts_last = 4;
  events = OrderEvent.initialized init ∷ OrderEvent.filled fill ∷ [];
}

fills : Order.take_fill open_order fill (OrderEvent.filled fill) ≡ ok filled
unfolding Order.take_fill Order.apply_fill Order.leaves_qty Order.average Price.from_decimal
    Quantity.checked_add Quantity.checked_sub Quantity.as_decimal Quantity.is_zero Price.as_decimal
    ◌+ℤ◌ ◌-ℤ◌
fills = refl

take_fill_completes_example :
    (pos 2000 ≡ pos 0 +ℤ pos 2000)
    × ((OrderStatus.filled ≡ OrderStatus.filled) ↔ (pos 2000 ≤ℤ pos 2000))
    × ((OrderStatus.filled ≡ OrderStatus.partially_filled) ↔ (pos 2000 <ℤ pos 2000))
take_fill_completes_example =
    OrderInvariant.take_fill_completes open_order fill (OrderEvent.filled fill) open_order-IsValid
      refl (omega arith) (omega arith, omega arith) fills

-- The event says that a part is filled, and nothing is left.
abbrev completed : Order
completed = record filled {
  events = OrderEvent.initialized init ∷ OrderEvent.partially_filled fill ∷ [];
}

completes : Order.apply open_order (OrderEvent.partially_filled fill) ≡ ok completed
unfolding Order.apply Order.take_fill Order.apply_fill Order.leaves_qty Order.average
    Price.from_decimal Quantity.checked_add Quantity.checked_sub Quantity.as_decimal
    Quantity.is_zero Price.as_decimal ◌+ℤ◌ ◌-ℤ◌
completes = refl

apply-Edge_example : Edge OrderStatus.accepted Kind.filled OrderStatus.filled
unfolding Order.leaves_qty Quantity.checked_sub Quantity.is_zero ◌-ℤ◌
apply-Edge_example = apply-Edge open_order (OrderEvent.partially_filled fill) completes
