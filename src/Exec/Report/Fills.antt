-- ===== src/Exec/Report/Fills.antt =====
-- execution-live/crates/coinext-exec-engine/src/lib.rs: when a fill changes the position.
use coinext.Prelude.{
  String, ◌≡◌, refl, ap, sym, ◌∙◌, ◌≢◌, true, false, Option, none, some, List, [], ◌∷◌, arith,
  Bool-cases, Option-cases, inl, inr, ◌⊎◌,
}
use coinext.Prelude.Maps.{set_insert, contains, contains-set_insert, some_inj, string_eq}
use coinext.Core.Error.{ok, Result-cases}
use coinext.Core.Decimal.{Decimals}
use coinext.Core.Time.{UnixNanos}
use coinext.Model.Enums.{OrderStatus}
use coinext.Model.Ids.{ClientOrderId}
use coinext.Model.Fill.{Fill}
use coinext.Model.Order
use coinext.Model.Order.{Order, OrderEvent}
use coinext.Model.Instrument.{Instrument}
use coinext.Cache
use coinext.Cache.{Cache}
use coinext.Ports.{ExecutionReport}
use coinext.Exec.{ExecutionEngine}
use coinext.Exec.Submit.{feed_order}
use coinext.Exec.Report.{
  apply_report, apply_fill_report, feed_fill, fill_event, note_buy, fold_position, settle_fill,
}

module _ ⦃d : Decimals⦄ where
  -- The order is unknown or refuses the event, and nothing changes; or it takes the event.
  pub feed_order_cases :
      (id : ClientOrderId) (ev : OrderEvent) (e : ExecutionEngine)
      → (feed_order id ev e ≡ (e, []))
        ⊎ ((o : Order) × (o' : Order) × (Cache.order e.cache id ≡ some o)
            × (Order.apply o ev ≡ ok o')
            × (feed_order id ev e ≡ (record e { cache = Cache.set_order id o' e.cache }, ev ∷ [])))
  unfolding feed_order
  feed_order_cases id ev e = elim (Option-cases (Cache.order e.cache id)) [
    | inl n ↦ inl (ground (arith, n))
    | inr (o, n) ↦ elim (Result-cases (Order.apply o ev)) [
      | inl (o', a) ↦ inr (o, o', n, a, ground (arith, n, a))
      | inr (x, a) ↦ inl (ground (arith, n, a))
    ]
  ]

  -- What feeding an order leaves alone.
  feed_order_keeps :
      (id : ClientOrderId) (ev : OrderEvent) (e : ExecutionEngine)
      → ((feed_order id ev e).0.seen_trade_ids ≡ e.seen_trade_ids)
        × ((feed_order id ev e).0.bought_today ≡ e.bought_today)
        × ((feed_order id ev e).0.close_by_day ≡ e.close_by_day)
        × ((feed_order id ev e).0.cache.positions ≡ e.cache.positions)
        × ((feed_order id ev e).0.cache.instruments ≡ e.cache.instruments)
  unfolding Cache.set_order
  feed_order_keeps id ev e = elim (feed_order_cases id ev e) [
    | inl r ↦ ground (arith, r)
    | inr (o, o', n, a, r) ↦ ground (arith, r)
  ]

  settle_keeps :
      (f : Fill) (i : Option Instrument) (evs : List OrderEvent) (e : ExecutionEngine)
      → ((settle_fill f i evs e).seen_trade_ids ≡ e.seen_trade_ids)
        × ((settle_fill f i evs e).cache.orders ≡ e.cache.orders)
        × ((settle_fill f i evs e).cache.instruments ≡ e.cache.instruments)
  unfolding note_buy fold_position Cache.upsert_position
  settle_keeps f i [] e = ground arith
  settle_keeps f none (ev ∷ evs) e = ground arith
  settle_keeps f (some inst) (ev ∷ evs) e = ground arith

  feed_fill_keeps :
      (f : Fill) (e : ExecutionEngine)
      → ((feed_fill f e).0.seen_trade_ids ≡ e.seen_trade_ids)
        × ((feed_fill f e).0.bought_today ≡ e.bought_today)
        × ((feed_fill f e).0.close_by_day ≡ e.close_by_day)
        × ((feed_fill f e).0.cache.positions ≡ e.cache.positions)
        × ((feed_fill f e).0.cache.instruments ≡ e.cache.instruments)
  unfolding feed_fill
  feed_fill_keeps f e = elim (Option-cases (Cache.order e.cache f.client_order_id)) [
    | inl n ↦ ground (arith, n)
    | inr (o, n) ↦ ground (arith, n, feed_order_keeps f.client_order_id (fill_event o f) e)
  ]

  fill_report_seen :
      (f : Fill) (e : ExecutionEngine)
      → (apply_fill_report f e).0.seen_trade_ids ≡ (set_insert f.trade_id e.seen_trade_ids).1
  unfolding apply_fill_report
  fill_report_seen f e =
      let e' = record e { seen_trade_ids = (set_insert f.trade_id e.seen_trade_ids).1 } in
      elim (Bool-cases (set_insert f.trade_id e.seen_trade_ids).0) [
        | inl t ↦ ground (
          arith,
          t,
          feed_fill_keeps f e',
          settle_keeps f (Cache.instrument e.cache f.instrument_id) (feed_fill f e').1
              (feed_fill f e').0,
        )
        | inr t ↦ ground (arith, t)
      ]

  set_insert_old :
      (x : String) (s : List String) → contains x s ≡ true → set_insert x s ≡ (false, s)
  unfolding set_insert
  set_insert_old x s h = ground (arith, h)

  seen_drop :
      (g : Fill) (e : ExecutionEngine)
      → contains g.trade_id e.seen_trade_ids ≡ true
      → apply_fill_report g e ≡ (e, [])
  unfolding apply_fill_report
  seen_drop g e h = ground (arith, set_insert_old g.trade_id e.seen_trade_ids h)

  -- Once a fill report was taken, every report of a fill with its trade id changes nothing, whether
  -- or not the order or the position took the first one.
  pub fill_twice :
      (f g : Fill) (now now' : UnixNanos) (e : ExecutionEngine)
      → g.trade_id ≡ f.trade_id
      → apply_report (ExecutionReport.fill g) now' (apply_report (ExecutionReport.fill f) now e).0
        ≡ ((apply_report (ExecutionReport.fill f) now e).0, [])
  unfolding apply_report
  fill_twice f g now now' e h = seen_drop g (apply_fill_report f e).0 (
      ap (contains g.trade_id) (fill_report_seen f e)
      ∙ (contains-set_insert f.trade_id g.trade_id e.seen_trade_ids
          ∙ rw ((string_eq.beq_iff f.trade_id g.trade_id).1 (sym h)) refl))

  abbrev pub seen_now : Fill → ExecutionEngine → ExecutionEngine
  seen_now f e = record e { seen_trade_ids = f.trade_id ∷ e.seen_trade_ids }

  abbrev pub order_moved : Fill → Order → ExecutionEngine → ExecutionEngine
  order_moved f o e = record e {
    seen_trade_ids = f.trade_id ∷ e.seen_trade_ids;
    cache = Cache.set_order f.client_order_id o e.cache;
  }

  pub fill_taken :
      (f : Fill) (e : ExecutionEngine) (o o' : Order)
      → contains f.trade_id e.seen_trade_ids ≡ false
      → Cache.order e.cache f.client_order_id ≡ some o
      → Order.apply o (fill_event o f) ≡ ok o'
      → apply_fill_report f e ≡ (
        settle_fill f
            (Cache.instrument e.cache f.instrument_id)
            (fill_event o f ∷ [])
            (order_moved f o' e),
        fill_event o f ∷ [],
      )
  unfolding apply_fill_report set_insert feed_fill feed_order
  fill_taken f e o o' t n a = ground (arith, t, n, a)

  -- The fill was seen before, is refused by the order, or is taken by it and settled.
  pub fill_cases :
      (f : Fill) (e : ExecutionEngine)
      → ((contains f.trade_id e.seen_trade_ids ≡ true) × (apply_fill_report f e ≡ (e, [])))
        ⊎ ((apply_fill_report f e ≡ (seen_now f e, []))
            ⊎ ((o : Order) × (o' : Order) × (contains f.trade_id e.seen_trade_ids ≡ false)
                × (Cache.order e.cache f.client_order_id ≡ some o)
                × (Order.apply o (fill_event o f) ≡ ok o')
                × (apply_fill_report f e ≡ (
                  settle_fill f
                      (Cache.instrument e.cache f.instrument_id)
                      (fill_event o f ∷ [])
                      (order_moved f o' e),
                  fill_event o f ∷ [],
                ))))
  unfolding apply_fill_report set_insert feed_fill feed_order
  fill_cases f e = elim (Bool-cases (contains f.trade_id e.seen_trade_ids)) [
    | inl t ↦ inl (t, seen_drop f e t)
    | inr t ↦ inr (elim (Option-cases (Cache.order e.cache f.client_order_id)) [
      | inl n ↦ inl (ground (arith, t, n))
      | inr (o, n) ↦ elim (Result-cases (Order.apply o (fill_event o f))) [
        | inr (x, a) ↦ inl (ground (arith, t, n, a))
        | inl (o', a) ↦ inr (o, o', t, n, a, fill_taken f e o o' t n a)
      ]
    ])
  ]

  pending_cancel_refuses :
      (o : Order) (f : Fill) {o' : Order}
      → o.status ≡ OrderStatus.pending_cancel
      → Order.apply o (fill_event o f) ≢ ok o'
  unfolding fill_event Order.apply Order.take_fill
  pending_cancel_refuses o f h e = absurd (ground arith)

  -- While the cancellation of an order is pending, a fill of a new trade changes nothing but the set
  -- of seen trades: the position does not take it, and no event reaches the strategy.
  pub pending_cancel_drops :
      (f : Fill) (now : UnixNanos) (e : ExecutionEngine) (o : Order)
      → Cache.order e.cache f.client_order_id ≡ some o
      → o.status ≡ OrderStatus.pending_cancel
      → contains f.trade_id e.seen_trade_ids ≡ false
      → apply_report (ExecutionReport.fill f) now e ≡ (seen_now f e, [])
  unfolding apply_report
  pending_cancel_drops f now e o n h t = elim (fill_cases f e) [
    | inl (s, r) ↦ absurd (ground (arith, s, t))
    | inr (inl r) ↦ r
    | inr (inr (p, p', s, m, a, r)) ↦
        absurd (pending_cancel_refuses p f (ap (λ q. q.status) (some_inj (sym m ∙ n)) ∙ h) a)
  ]

  -- A report changes positions, the T+1 ledger or the stored closes only if it is a fill, of a trade
  -- not seen before, that the tracked order takes as its next event.
  pub changes_need_fsm :
      (r : ExecutionReport) (now : UnixNanos) (e : ExecutionEngine)
      → (((apply_report r now e).0.cache.positions ≡ e.cache.positions)
          × ((apply_report r now e).0.bought_today ≡ e.bought_today)
          × ((apply_report r now e).0.close_by_day ≡ e.close_by_day))
        ⊎ ((f : Fill) × (o : Order) × (o' : Order) × (r ≡ ExecutionReport.fill f)
            × (contains f.trade_id e.seen_trade_ids ≡ false)
            × (Cache.order e.cache f.client_order_id ≡ some o)
            × (Order.apply o (fill_event o f) ≡ ok o'))
  unfolding apply_report
  changes_need_fsm (ExecutionReport.fill f) now e = elim (fill_cases f e) [
    | inl (t, r) ↦ inl (ground (arith, r))
    | inr (inl r) ↦ inl (ground (arith, r))
    | inr (inr (o, o', t, n, a, r)) ↦ inr (f, o, o', refl, t, n, a)
  ]
  changes_need_fsm (ExecutionReport.accepted id v) now e =
      inl (ground (arith, feed_order_keeps id (OrderEvent.accepted v now) e))
  changes_need_fsm (ExecutionReport.rejected id x) now e =
      inl (ground (arith, feed_order_keeps id (OrderEvent.rejected x now) e))
  changes_need_fsm (ExecutionReport.canceled id) now e =
      inl (ground (arith, feed_order_keeps id (OrderEvent.canceled now) e))
  changes_need_fsm (ExecutionReport.expired id) now e =
      inl (ground (arith, feed_order_keeps id (OrderEvent.expired now) e))
  changes_need_fsm (ExecutionReport.pending_update id) now e =
      inl (ground (arith, feed_order_keeps id (OrderEvent.pending_update now) e))
  changes_need_fsm (ExecutionReport.modified id q p) now e =
      inl (ground (arith, feed_order_keeps id (OrderEvent.updated q p now) e))
  changes_need_fsm (ExecutionReport.pending_cancel id) now e =
      inl (ground (arith, feed_order_keeps id (OrderEvent.pending_cancel now) e))
