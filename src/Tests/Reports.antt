-- ===== src/Tests/Reports.antt =====
-- The theorems on execution reports at concrete inputs.
use coinext.Prelude.{
  ◌≡◌, refl, ◌≤◌, false, ◌&&◌, none, some, [], ◌∷◌, ◌++◌, arith, ◌⊎◌, if◌then◌else◌,
}
use coinext.Prelude.Int.{◌+ℤ◌, ◌-ℤ◌}
use coinext.Prelude.Maps.{contains, get, insert, insert_all, string_eq, ◌==◌}
use coinext.Core.Error.{ok}
use coinext.Core.Price
use coinext.Core.Quantity
use coinext.Model.Enums.{OrderStatus, is_buy}
use coinext.Model.Ids.{InstrumentId, instrument_id_eq}
use coinext.Model.Fill.{Fill}
use coinext.Model.Order
use coinext.Model.Order.{Order, OrderEvent}
use coinext.Model.Order.Invariant as OrderInvariant
use coinext.Model.Position
use coinext.Model.Position.{Position}
use coinext.Model.Instrument.{price_precision, size_precision}
use coinext.Cache
use coinext.Cache.{Cache}
use coinext.Ports.{ExecutionReport}
use coinext.Exec.{ExecutionEngine}
use coinext.Exec.Session.{bought_on, day_key_for_inst, is_ashare_equity}
use coinext.Exec.Report.{apply_report, fill_event}
use coinext.Exec.Report.Fills.{seen_now, fill_twice, changes_need_fsm, pending_cancel_drops}
use coinext.Exec.Report.Invariant as EngineInvariant
use coinext.Exec.Report.Settle.{position_before, fill_settles}
use coinext.Tests.Sample.{sample_decimals, btc_usdt, price, quantity, pair, init, fill}

-- The order once the venue has accepted it, tracked.
abbrev open_order : Order
open_order = record (Order.new "s" init) {
  status = OrderStatus.accepted;
  venue_order_id = some "v-1";
  quantity = quantity 2000;
  filled_qty = quantity 0;
  avg_px = none;
  client_order_id = "c-1";
}

abbrev tracking : ExecutionEngine
tracking = record {
  cache = record {
    instruments = (btc_usdt, pair) ∷ [];
    quotes = [];
    marks = (btc_usdt, price 10000) ∷ [];
    order_books = [];
    orders = ("c-1", open_order) ∷ [];
    positions = [];
    account = none;
  };
  seen_trade_ids = [];
  bought_today = [];
  close_by_day = [];
}

abbrev filled_order : Order
filled_order = record open_order {
  status = OrderStatus.filled;
  filled_qty = quantity 2000;
  avg_px = some (price 10000);
  ts_last = 4;
  events = (Order.new "s" init).events ++ (OrderEvent.filled fill ∷ []);
}

tracked : Cache.order tracking.cache "c-1" ≡ some open_order
unfolding Cache.order get
tracked = refl

takes : Order.apply open_order (fill_event open_order fill) ≡ ok filled_order
unfolding Order.apply fill_event Quantity.as_decimal Order.leaves_qty Quantity.checked_sub ◌-ℤ◌
    Order.take_fill Order.apply_fill Quantity.checked_add ◌+ℤ◌ Price.from_decimal Order.average
    Price.as_decimal Quantity.is_zero
takes = refl

known : Cache.instrument tracking.cache btc_usdt ≡ some pair
unfolding Cache.instrument get
known = refl

unseen : contains fill.trade_id tracking.seen_trade_ids ≡ false
unfolding contains
unseen = refl

open_order-IsValid : OrderInvariant.IsValid open_order
open_order-IsValid = ground arith

tracking-IsValid : EngineInvariant.IsValid tracking.cache
unfolding Cache.order Cache.position Cache.instrument get insert price_precision size_precision
tracking-IsValid = record {
  orders =
      insert_all (λ id o. OrderInvariant.IsValid o × (o.client_order_id ≡ id)) "c-1" open_order []
        (λ id o h. absurd (ground arith)) (open_order-IsValid, refl);
  positions = λ id p h. absurd (ground arith);
  instruments =
      insert_all (λ id i. (price_precision i ≤ 18) × (size_precision i ≤ 18)) btc_usdt pair []
        (λ id i h. absurd (ground arith)) (omega arith, omega arith);
}

fill_settles_example :
    (Cache.position (apply_report (ExecutionReport.fill fill) 5 tracking).0.cache btc_usdt
      ≡ some (Position.apply_fill (position_before fill pair tracking) fill pair).0)
    × ((id : InstrumentId)
        → btc_usdt == id ≡ false
        → Cache.position (apply_report (ExecutionReport.fill fill) 5 tracking).0.cache id
          ≡ Cache.position tracking.cache id)
    × (bought_on btc_usdt
          (day_key_for_inst pair 4)
          (apply_report (ExecutionReport.fill fill) 5 tracking).0
        ≡ (if is_buy fill.side && is_ashare_equity pair
            then sample_decimals.add
                (bought_on btc_usdt (day_key_for_inst pair 4) tracking)
                (Quantity.as_decimal fill.last_qty)
            else bought_on btc_usdt (day_key_for_inst pair 4) tracking))
    × ((apply_report (ExecutionReport.fill fill) 5 tracking).1 ≡ fill_event open_order fill ∷ [])
fill_settles_example =
    fill_settles fill 5 tracking pair open_order filled_order tracking-IsValid unseen tracked takes
      known

fill_twice_example :
    apply_report
      (ExecutionReport.fill fill)
      6
      (apply_report (ExecutionReport.fill fill) 5 tracking).0
    ≡ ((apply_report (ExecutionReport.fill fill) 5 tracking).0, [])
fill_twice_example = fill_twice fill fill 5 6 tracking refl

changes_need_fsm_example :
    (((apply_report (ExecutionReport.fill fill) 5 tracking).0.cache.positions ≡ [])
      × ((apply_report (ExecutionReport.fill fill) 5 tracking).0.bought_today ≡ [])
      × ((apply_report (ExecutionReport.fill fill) 5 tracking).0.close_by_day ≡ []))
    ⊎ ((f : Fill) × (o : Order) × (o' : Order) × (ExecutionReport.fill fill
          ≡ ExecutionReport.fill f)
        × (contains f.trade_id tracking.seen_trade_ids ≡ false)
        × (Cache.order tracking.cache f.client_order_id ≡ some o)
        × (Order.apply o (fill_event o f) ≡ ok o'))
changes_need_fsm_example = changes_need_fsm (ExecutionReport.fill fill) 5 tracking

apply_report-IsValid_example :
    EngineInvariant.IsValid (apply_report (ExecutionReport.fill fill) 5 tracking).0.cache
apply_report-IsValid_example =
    EngineInvariant.apply_report-IsValid (ExecutionReport.fill fill) 5 tracking tracking-IsValid

-- The same order while its cancellation is pending.
abbrev canceling : Order
canceling = record open_order { status = OrderStatus.pending_cancel }

abbrev waiting : ExecutionEngine
waiting = record tracking { cache = record tracking.cache { orders = ("c-1", canceling) ∷ [] } }

waits : Cache.order waiting.cache "c-1" ≡ some canceling
unfolding Cache.order get
waits = refl

pending_cancel_drops_example :
    apply_report (ExecutionReport.fill fill) 5 waiting ≡ (seen_now fill waiting, [])
pending_cancel_drops_example = pending_cancel_drops fill 5 waiting canceling waits refl unseen
