-- ===== src/Exec/Report/Invariant.antt =====
-- execution-live/crates/coinext-exec-engine/src/lib.rs: what every execution report keeps of the
-- engine's orders and positions.
use coinext.Prelude.{
  ◌≤◌, ◌≡◌, refl, ap, sym, subst, ◌∙◌, Option, none, some, List, [], ◌∷◌, arith, Option-cases, inl,
  inr,
}
use coinext.Prelude.Maps.{insert_all, string_eq}
use coinext.Core.Decimal.{Decimals}
use coinext.Core.Price
use coinext.Core.Quantity
use coinext.Core.Time.{UnixNanos}
use coinext.Model.Ids.{ClientOrderId, InstrumentId, instrument_id_eq}
use coinext.Model.Fill.{Fill}
use coinext.Model.Order.{Order, OrderEvent}
use coinext.Model.Order.Invariant as OrderInvariant
use coinext.Model.Position
use coinext.Model.Position.{Position}
use coinext.Model.Position.Invariant as PositionInvariant
use coinext.Model.Instrument.{Instrument, price_precision, size_precision}
use coinext.Cache
use coinext.Cache.{Cache}
use coinext.Ports.{ExecutionReport}
use coinext.Exec.{ExecutionEngine}
use coinext.Exec.Submit.{feed_order}
use coinext.Exec.Report.{
  apply_report, apply_fill_report, fill_event, note_buy, fold_position, settle_fill, open_flat,
  position_or,
}
use coinext.Exec.Report.Fills.{fill_cases, feed_order_cases, order_moved}

module _ ⦃d : Decimals⦄ where
  -- Each order and each position is valid and stands under its own id, and the precisions of the
  -- instruments are supported.
  pub record IsValid (c : Cache) : Type 0 where
    pub orders :
        (id : ClientOrderId) (o : Order)
        → Cache.order c id ≡ some o
        → OrderInvariant.IsValid o × (o.client_order_id ≡ id)
    pub positions :
        (id : InstrumentId) (p : Position)
        → Cache.position c id ≡ some p
        → PositionInvariant.IsValid p × (p.instrument_id ≡ id)
    pub instruments :
        (id : InstrumentId) (i : Instrument)
        → Cache.instrument c id ≡ some i
        → (price_precision i ≤ 18) × (size_precision i ≤ 18)

  set_order-IsValid :
      (c : Cache) (id : ClientOrderId) (o : Order)
      → IsValid c
      → OrderInvariant.IsValid o × (o.client_order_id ≡ id)
      → IsValid (Cache.set_order id o c)
  unfolding Cache.set_order Cache.order Cache.position Cache.instrument
  set_order-IsValid c id o v w = record {
    orders =
        insert_all (λ i p. OrderInvariant.IsValid p × (p.client_order_id ≡ i)) id o c.orders
          v.orders w;
    positions = v.positions;
    instruments = v.instruments;
  }

  open_flat-IsValid :
      (id : InstrumentId) (i : Instrument)
      → price_precision i ≤ 18
      → size_precision i ≤ 18
      → PositionInvariant.IsValid (open_flat id i) × ((open_flat id i).instrument_id ≡ id)
  unfolding open_flat Position.flat_at Quantity.zero Price.zero
  open_flat-IsValid id i p s = (
    record {
      quantity_valid = ground arith;
      quantity_precision = refl;
      price_valid = ground arith;
      price_precision = refl;
    },
    refl,
  )

  upsert_position-IsValid :
      (c : Cache) (id : InstrumentId) (p : Position)
      → IsValid c
      → PositionInvariant.IsValid p × (p.instrument_id ≡ id)
      → IsValid (Cache.upsert_position p c)
  unfolding Cache.upsert_position Cache.order Cache.position Cache.instrument
  upsert_position-IsValid c id p v w = record {
    orders = v.orders;
    positions =
        insert_all (λ i q. PositionInvariant.IsValid q × (q.instrument_id ≡ i)) p.instrument_id p
          c.positions v.positions (w.0, refl);
    instruments = v.instruments;
  }

  feed_order-IsValid :
      (id : ClientOrderId) (ev : OrderEvent) (e : ExecutionEngine)
      → IsValid e.cache
      → IsValid (feed_order id ev e).0.cache
  feed_order-IsValid id ev e v = elim (feed_order_cases id ev e) [
    | inl r ↦ rw r v
    | inr (o, o', n, a, r) ↦
        let old = v.orders id o n in
        rw r (
          set_order-IsValid e.cache id o' v (
            OrderInvariant.apply_event-IsValid o ev o' old.0 a,
            OrderInvariant.apply_id o ev a ∙ old.1,
          ))
  ]

  pub position_or-IsValid :
      (c : Cache) (id : InstrumentId) (i : Instrument)
      → IsValid c
      → Cache.instrument c id ≡ some i
      → PositionInvariant.IsValid (position_or (Cache.position c id) (open_flat id i))
        × ((position_or (Cache.position c id) (open_flat id i)).instrument_id ≡ id)
  position_or-IsValid c id i v h = elim (Option-cases (Cache.position c id)) [
    | inl n ↦ rw n (let p = v.instruments id i h in open_flat-IsValid id i p.0 p.1)
    | inr (p, n) ↦ rw n (v.positions id p n)
  ]

  fold_position-IsValid :
      (f : Fill) (i : Instrument) (e : ExecutionEngine)
      → IsValid e.cache
      → Cache.instrument e.cache f.instrument_id ≡ some i
      → IsValid (fold_position f i e).cache
  unfolding fold_position
  fold_position-IsValid f i e v h =
      let old = position_or-IsValid e.cache f.instrument_id i v h in
      let p = position_or (Cache.position e.cache f.instrument_id) (open_flat f.instrument_id i) in
      let new = PositionInvariant.apply_fill-IsValid p f i old.0 in
      upsert_position-IsValid e.cache f.instrument_id (Position.apply_fill p f i).0 v
        (new.0, new.1.0 ∙ old.1)

  note_buy_cache :
      (f : Fill) (i : Instrument) (e : ExecutionEngine) → (note_buy f i e).cache ≡ e.cache
  unfolding note_buy
  note_buy_cache f i e = ground arith

  settle_fill-IsValid :
      (f : Fill) (i : Option Instrument) (evs : List OrderEvent) (e : ExecutionEngine)
      → IsValid e.cache
      → Cache.instrument e.cache f.instrument_id ≡ i
      → IsValid (settle_fill f i evs e).cache
  settle_fill-IsValid f i [] e v h = v
  settle_fill-IsValid f none (ev ∷ evs) e v h = v
  settle_fill-IsValid f (some i) (ev ∷ evs) e v h =
      let c = note_buy_cache f i e in
      fold_position-IsValid f i (note_buy f i e) (subst IsValid (sym c) v)
        (ap (λ x. Cache.instrument x f.instrument_id) c ∙ h)

  fill_report-IsValid :
      (f : Fill) (e : ExecutionEngine) → IsValid e.cache → IsValid (apply_fill_report f e).0.cache
  unfolding Cache.set_order Cache.instrument
  fill_report-IsValid f e v = elim (fill_cases f e) [
    | inl (t, r) ↦ rw r v
    | inr (inl r) ↦ rw r v
    | inr (inr (o, o', t, n, a, r)) ↦
        let old = v.orders f.client_order_id o n in
        rw r (
          settle_fill-IsValid f (Cache.instrument e.cache f.instrument_id) (fill_event o f ∷ [])
            (order_moved f o' e)
            (set_order-IsValid e.cache f.client_order_id o' v (
              OrderInvariant.apply_event-IsValid o (fill_event o f) o' old.0 a,
              OrderInvariant.apply_id o (fill_event o f) a ∙ old.1,
            ))
            refl)
  ]

  -- Every execution report keeps the store valid: each order and each position under its own id and
  -- valid, at supported precisions.
  pub apply_report-IsValid :
      (r : ExecutionReport) (now : UnixNanos) (e : ExecutionEngine)
      → IsValid e.cache
      → IsValid (apply_report r now e).0.cache
  unfolding apply_report
  apply_report-IsValid (ExecutionReport.fill f) now e v = fill_report-IsValid f e v
  apply_report-IsValid (ExecutionReport.accepted id x) now e v = feed_order-IsValid id _ e v
  apply_report-IsValid (ExecutionReport.rejected id x) now e v = feed_order-IsValid id _ e v
  apply_report-IsValid (ExecutionReport.canceled id) now e v = feed_order-IsValid id _ e v
  apply_report-IsValid (ExecutionReport.expired id) now e v = feed_order-IsValid id _ e v
  apply_report-IsValid (ExecutionReport.pending_update id) now e v = feed_order-IsValid id _ e v
  apply_report-IsValid (ExecutionReport.modified id q p) now e v = feed_order-IsValid id _ e v
  apply_report-IsValid (ExecutionReport.pending_cancel id) now e v = feed_order-IsValid id _ e v
