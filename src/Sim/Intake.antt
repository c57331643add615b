-- ===== src/Sim/Intake.antt =====
-- backtesting-simulation/crates/coinext-sim/src/lib.rs: `on_submit` and `on_cancel` of the simulated
-- venue. Its clock and its brokerage model are parameters; the state behind the cell is passed.
pub mod Reports
use Prim.Native.String.{◌++◌}
use coinext.Prelude.{
  ℕ, zero, suc, ◌+◌, ◌/◌, ◌%◌, ◌^◌, Bool, true, false, ◌&&◌, ◌||◌, not, Option, none, some, List,
  [], ◌∷◌, ◌++◌ as append, String, nat_beq, leb, if◌then◌else◌,
}
use coinext.Prelude.Int.{ℤ, pos, ltb_ℤ, beq_ℤ}
use coinext.Prelude.Text.{padded}
use coinext.Prelude.Maps.{◌==◌, string_eq}
use coinext.Core.Error.{Result, ok, err}
use coinext.Core.Decimal.{Decimals}
use coinext.Core.Price
use coinext.Core.Price.{Price}
use coinext.Core.Quantity.{Quantity}
use coinext.Core.Time.{UnixNanos, saturating_add_ns}
use coinext.Model.Enums.{OrderSide, buy, sell, OrderType}
use coinext.Model.Ids.{InstrumentId, ClientOrderId, VenueOrderId}
use coinext.Model.MarketData.{QuoteTick}
use coinext.Model.Order.{Order}
use coinext.Cache
use coinext.Cache.{Cache}
use coinext.Ports.{ExecutionReport, Venue}
use coinext.Sim.Brokerage.{CommandKind, submit, cancel}
use coinext.Sim.Queue.{DelayedEventQueue, push}

pub record TrailState : Type 0 where
  pub offset : Price
  pub extreme : Price

pub record Resting : Type 0 where
  pub order : Order
  pub remaining : Quantity
  pub queue_ahead : Option Quantity
  pub venue_order_id : VenueOrderId
  pub trail : Option TrailState
  pub pending_open : Bool

pub record SimState : Type 0 where
  pub queue : DelayedEventQueue
  pub resting : List Resting
  pub last_bar : List (InstrumentId × (Price × Price × Quantity))
  pub venue_seq : ℕ
  pub trade_seq : ℕ

unfoldable pub new : SimState
new = record {
  queue = record { heap = []; seq = 0 };
  resting = [];
  last_bar = [];
  venue_seq = 0;
  trade_seq = 0;
}

unfoldable pub venue_id : ℕ → VenueOrderId
venue_id n = "SIM-" ++ padded 20 n

abbrev pub crosses : OrderSide → Price → Price → Bool
crosses buy rp limit = Price.le rp limit
crosses sell rp limit = Price.le limit rp

abbrev pub is_trailing : OrderType → Bool
is_trailing OrderType.trailing_stop_market = true
is_trailing _ = false

abbrev side_price : OrderSide → QuoteTick → Price
side_price buy q = q.ask
side_price sell q = q.bid

abbrev trail_offset : OrderSide → Price → Price → Result Price
trail_offset sell mark trigger = Price.checked_sub mark trigger
trail_offset buy mark trigger = Price.checked_sub trigger mark

abbrev trail_of : Result Price → Price → Option TrailState
trail_of (err x) mark = none
trail_of (ok o) mark =
    if ltb_ℤ (pos 0) o.raw then some (record { offset = o; extreme = mark }) else none

abbrev trail_from : OrderSide → Option Price → Option Price → Option TrailState
trail_from side none trigger = none
trail_from side (some mark) none = none
trail_from side (some mark) (some trigger) = trail_of (trail_offset side mark trigger) mark

abbrev pub remove_at : ClientOrderId → List Resting → List Resting
remove_at id [] = []
remove_at id (r ∷ rs) = if r.order.client_order_id == id then rs else r ∷ remove_at id rs

abbrev pub rests : ClientOrderId → List Resting → Bool
rests id [] = false
rests id (r ∷ rs) = if r.order.client_order_id == id then true else rests id rs

module _ ⦃d : Decimals⦄ where
  abbrev reference_of : Option QuoteTick → Option Price → OrderSide → Option Price
  reference_of (some q) mark side = some (side_price side q)
  reference_of none mark side = mark

  unfoldable pub reference_price : Cache → InstrumentId → OrderSide → Option Price
  reference_price c id side = reference_of (Cache.quote c id) (Cache.mark c id) side

  abbrev limit_crosses : OrderSide → Option Price → Option Price → Bool
  limit_crosses side (some limit) (some rp) = crosses side rp limit
  limit_crosses side none rp = false
  limit_crosses side (some limit) none = false

  unfoldable pub marketable : Cache → Order → Bool
  unfolding reference_price
  marketable c o = elim o.order_type [
    | OrderType.market ↦ true
    | OrderType.limit ↦ limit_crosses o.side o.price (reference_price c o.instrument_id o.side)
    | _ ↦ false
  ]

  -- The order as it rests: one that is marketable waits for the next open.
  unfoldable pub resting_of : Cache → Order → VenueOrderId → Resting
  unfolding marketable
  resting_of c o id =
      let trail =
        if is_trailing o.order_type
        then trail_from o.side (Cache.mark c o.instrument_id) o.trigger
        else none in
      if marketable c o
      then record {
        order = o;
        remaining = o.quantity;
        queue_ahead = none;
        venue_order_id = id;
        trail = none;
        pending_open = true;
      }
      else record {
        order = o;
        remaining = o.quantity;
        queue_ahead = none;
        venue_order_id = id;
        trail = trail;
        pending_open = false;
      }

  module _ (now : UnixNanos) (latency_ns : CommandKind → ℕ) where
    abbrev take_order : Cache → Order → SimState → SimState
    take_order c o s =
        let seq = (s.venue_seq + 1) % 2 ^ 64 in
        let at = saturating_add_ns now (latency_ns submit) in
        record s {
          venue_seq = seq;
          queue = push at (ExecutionReport.accepted o.client_order_id (venue_id seq)) s.queue;
          resting = append s.resting (resting_of c o (venue_id seq) ∷ []);
        }

    unfoldable pub on_submit : Cache → Order → SimState → SimState
    unfolding venue_id resting_of push
    on_submit c o s = elim (Cache.instrument c o.instrument_id) [
      | none ↦ s
      | some inst ↦ take_order c o s
    ]

    unfoldable pub on_cancel : ClientOrderId → SimState → SimState
    unfolding push
    on_cancel id s =
        let at = saturating_add_ns now (latency_ns cancel) in
        if rests id s.resting
        then record s {
          resting = remove_at id s.resting;
          queue = push at (ExecutionReport.canceled id) s.queue;
        }
        else s

    -- The venue that the execution engine calls.
    abbrev pub sim_venue : Venue
    sim_venue = record { State = SimState; on_submit = on_submit; on_cancel = on_cancel }
