-- ===== src/Exec/Report.antt =====
-- execution-live/crates/coinext-exec-engine/src/lib.rs: `apply_report`, which folds an execution
-- report into the tracked order, the T+1 ledger and the position.
pub mod Fills
pub mod Invariant
pub mod Settle
use Prim.Native.String.{◌++◌}
use coinext.Prelude.{ℕ, Bool, true, false, ◌&&◌, Option, none, some, List, [], ◌∷◌, if◌then◌else◌}
use coinext.Prelude.Maps.{get, insert, set_insert, string_eq}
use coinext.Core.Decimal.{Decimals, le}
use coinext.Core.Quantity
use coinext.Core.Time.{UnixNanos}
use coinext.Model.Enums.{OrderSide, is_buy}
use coinext.Model.Ids.{InstrumentId, ClientOrderId, to_text}
use coinext.Model.Fill.{Fill}
use coinext.Model.Order
use coinext.Model.Order.{Order, OrderEvent}
use coinext.Model.Position
use coinext.Model.Position.{Position}
use coinext.Model.Instrument.{Instrument, price_precision, size_precision, settlement_currency}
use coinext.Cache
use coinext.Cache.{Cache}
use coinext.Ports.{ExecutionReport}
use coinext.Exec.{ExecutionEngine}
use coinext.Exec.Session.{is_ashare_equity, day_key_for_inst, bought_on, day_eq}
use coinext.Exec.Submit.{feed_order}

module _ ⦃d : Decimals⦄ where
  -- `Filled` if the fill covers what is left of the order.
  unfoldable pub fill_event : Order → Fill → OrderEvent
  fill_event o f =
      if le (Quantity.as_decimal (Order.leaves_qty o)) (Quantity.as_decimal f.last_qty)
      then OrderEvent.filled f
      else OrderEvent.partially_filled f

  unfoldable pub feed_fill : Fill → ExecutionEngine → ExecutionEngine × List OrderEvent
  unfolding fill_event feed_order
  feed_fill f e = elim (Cache.order e.cache f.client_order_id) [
    | none ↦ (e, [])
    | some o ↦ feed_order f.client_order_id (fill_event o f) e
  ]

  -- The T+1 ledger of same-day buys.
  unfoldable pub note_buy : Fill → Instrument → ExecutionEngine → ExecutionEngine
  unfolding is_ashare_equity day_key_for_inst bought_on
  note_buy f inst e =
      let day = day_key_for_inst inst f.ts_event in
      let total = d.add (bought_on f.instrument_id day e) (Quantity.as_decimal f.last_qty) in
      if is_buy f.side && is_ashare_equity inst
      then record e { bought_today = insert (f.instrument_id, day) total e.bought_today }
      else e

  unfoldable pub open_flat : InstrumentId → Instrument → Position
  open_flat id inst =
      Position.flat_at (to_text id ++ "-POS") id (price_precision inst) (size_precision inst)
        (settlement_currency inst)

  abbrev pub position_or : Option Position → Position → Position
  position_or none p = p
  position_or (some q) p = q

  -- The result of `apply_fill` is dropped: what it wrote is stored also where it failed.
  unfoldable pub fold_position : Fill → Instrument → ExecutionEngine → ExecutionEngine
  unfolding open_flat
  fold_position f inst e =
      let p =
        position_or (Cache.position e.cache f.instrument_id) (open_flat f.instrument_id inst) in
      record e { cache = Cache.upsert_position (Position.apply_fill p f inst).0 e.cache }

  abbrev pub settle_fill :
      Fill → Option Instrument → List OrderEvent → ExecutionEngine → ExecutionEngine
  settle_fill f inst [] e = e
  settle_fill f none (ev ∷ evs) e = e
  settle_fill f (some inst) (ev ∷ evs) e = fold_position f inst (note_buy f inst e)

  unfoldable pub apply_fill_report : Fill → ExecutionEngine → ExecutionEngine × List OrderEvent
  unfolding feed_fill note_buy fold_position
  apply_fill_report f e =
      let (fresh, seen) = set_insert f.trade_id e.seen_trade_ids in
      let (fed, events) = feed_fill f (record e { seen_trade_ids = seen }) in
      if fresh
      then (settle_fill f (Cache.instrument e.cache f.instrument_id) events fed, events)
      else (record e { seen_trade_ids = seen }, [])

  unfoldable pub apply_report :
      ExecutionReport → UnixNanos → ExecutionEngine → ExecutionEngine × List OrderEvent
  unfolding feed_order apply_fill_report
  apply_report (ExecutionReport.accepted id venue_id) now =
      feed_order id (OrderEvent.accepted venue_id now)
  apply_report (ExecutionReport.fill f) now = apply_fill_report f
  apply_report (ExecutionReport.rejected id reason) now =
      feed_order id (OrderEvent.rejected reason now)
  apply_report (ExecutionReport.canceled id) now = feed_order id (OrderEvent.canceled now)
  apply_report (ExecutionReport.expired id) now = feed_order id (OrderEvent.expired now)
  apply_report (ExecutionReport.pending_update id) now =
      feed_order id (OrderEvent.pending_update now)
  apply_report (ExecutionReport.modified id quantity price) now =
      feed_order id (OrderEvent.updated quantity price now)
  apply_report (ExecutionReport.pending_cancel id) now =
      feed_order id (OrderEvent.pending_cancel now)
