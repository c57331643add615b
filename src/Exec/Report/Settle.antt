-- ===== src/Exec/Report/Settle.antt =====
-- execution-live/crates/coinext-exec-engine/src/lib.rs: what a fill that its order takes writes.
use coinext.Prelude.{
  ◌≡◌, refl, ◌∙◌, false, ◌&&◌, some, [], ◌∷◌, arith, inl, inr, if◌then◌else◌, Bool-cases,
}
use coinext.Prelude.Maps.{get-insert_self, get-insert_ne, contains, string_eq, ◌==◌}
use coinext.Core.Error.{ok}
use coinext.Core.Decimal.{Decimals}
use coinext.Core.Quantity
use coinext.Core.Time.{UnixNanos}
use coinext.Model.Enums.{is_buy}
use coinext.Model.Ids.{InstrumentId, instrument_id_eq}
use coinext.Model.Fill.{Fill}
use coinext.Model.Order
use coinext.Model.Order.{Order, OrderEvent}
use coinext.Model.Position
use coinext.Model.Position.{Position}
use coinext.Model.Position.Invariant as PositionInvariant
use coinext.Model.Instrument.{Instrument}
use coinext.Cache
use coinext.Cache.{Cache}
use coinext.Ports.{ExecutionReport}
use coinext.Exec.{ExecutionEngine}
use coinext.Exec.Session.{is_ashare_equity, day_key_for_inst, bought_on, day_eq}
use coinext.Exec.Report.{
  apply_report, fill_event, note_buy, fold_position, settle_fill, open_flat, position_or,
}
use coinext.Exec.Report.Fills.{fill_taken, order_moved}
use coinext.Exec.Report.Invariant.{IsValid, position_or-IsValid}

module _ ⦃d : Decimals⦄ where
  abbrev pub position_before : Fill → Instrument → ExecutionEngine → Position
  position_before f inst e =
      position_or (Cache.position e.cache f.instrument_id) (open_flat f.instrument_id inst)

  note_buy_lem :
      (f : Fill) (inst : Instrument) (e : ExecutionEngine)
      → bought_on f.instrument_id (day_key_for_inst inst f.ts_event) (note_buy f inst e) ≡ (
          if is_buy f.side && is_ashare_equity inst
          then d.add
              (bought_on f.instrument_id (day_key_for_inst inst f.ts_event) e)
              (Quantity.as_decimal f.last_qty)
          else bought_on f.instrument_id (day_key_for_inst inst f.ts_event) e)
  unfolding note_buy bought_on
  note_buy_lem f inst e =
      let day = day_key_for_inst inst f.ts_event in
      let total = d.add (bought_on f.instrument_id day e) (Quantity.as_decimal f.last_qty) in
      let written = get-insert_self (f.instrument_id, day) total e.bought_today in
      elim (Bool-cases (is_buy f.side && is_ashare_equity inst)) [
        | inl t ↦ rw (note_buy, bought_on, t, written) refl
        | inr t ↦ rw (note_buy, bought_on, t) refl
      ]

  note_buy_cache :
      (f : Fill) (i : Instrument) (e : ExecutionEngine) → (note_buy f i e).cache ≡ e.cache
  unfolding note_buy
  note_buy_cache f i e = ground arith

  -- The position that settling writes, beside what it leaves.
  settle_lem :
      (f : Fill) (inst : Instrument) (ev : OrderEvent) (e : ExecutionEngine)
      → ((Position.apply_fill (position_before f inst e) f inst).0.instrument_id ≡ f.instrument_id)
      → (Cache.position (settle_fill f (some inst) (ev ∷ []) e).cache f.instrument_id
          ≡ some (Position.apply_fill (position_before f inst e) f inst).0)
        × ((id : InstrumentId)
            → f.instrument_id == id ≡ false
            → Cache.position (settle_fill f (some inst) (ev ∷ []) e).cache id
              ≡ Cache.position e.cache id)
        × ((settle_fill f (some inst) (ev ∷ []) e).bought_today ≡ (note_buy f inst e).bought_today)
  unfolding fold_position Cache.upsert_position Cache.position
  settle_lem f inst ev e k =
      let c = note_buy_cache f inst e in
      let p = (Position.apply_fill (position_before f inst e) f inst).0 in
      (
        rw (c, k) (get-insert_self f.instrument_id p e.cache.positions),
        λ id ne. rw (c, k) (get-insert_ne f.instrument_id id p e.cache.positions ne),
        refl,
      )

  -- A fill of a new trade that its tracked order takes, on a known instrument and in a valid store,
  -- is folded once into the position of its instrument, opened flat if there was none, and leaves
  -- every other position; a buy of a mainland equity adds its size to the T+1 ledger of its session
  -- day, and no other fill changes that entry; and the order event is returned.
  pub fill_settles :
      (f : Fill) (now : UnixNanos) (e : ExecutionEngine) (inst : Instrument) (o o' : Order)
      → IsValid e.cache
      → contains f.trade_id e.seen_trade_ids ≡ false
      → Cache.order e.cache f.client_order_id ≡ some o
      → Order.apply o (fill_event o f) ≡ ok o'
      → Cache.instrument e.cache f.instrument_id ≡ some inst
      → (Cache.position (apply_report (ExecutionReport.fill f) now e).0.cache f.instrument_id
          ≡ some (Position.apply_fill (position_before f inst e) f inst).0)
        × ((id : InstrumentId)
            → f.instrument_id == id ≡ false
            → Cache.position (apply_report (ExecutionReport.fill f) now e).0.cache id
              ≡ Cache.position e.cache id)
        × (bought_on f.instrument_id
              (day_key_for_inst inst f.ts_event)
              (apply_report (ExecutionReport.fill f) now e).0
            ≡ (if is_buy f.side && is_ashare_equity inst
                then d.add
                    (bought_on f.instrument_id (day_key_for_inst inst f.ts_event) e)
                    (Quantity.as_decimal f.last_qty)
                else bought_on f.instrument_id (day_key_for_inst inst f.ts_event) e))
        × ((apply_report (ExecutionReport.fill f) now e).1 ≡ fill_event o f ∷ [])
  unfolding apply_report Cache.set_order Cache.position bought_on
  fill_settles f now e inst o o' v t n a i =
      let r = fill_taken f e o o' t n a in
      let old = position_or-IsValid e.cache f.instrument_id inst v i in
      let kept = PositionInvariant.apply_fill-IsValid (position_before f inst e) f inst old.0 in
      let lem = settle_lem f inst (fill_event o f) (order_moved f o' e) (kept.1.0 ∙ old.1) in
      (
        rw (r, i) lem.0,
        λ id ne. rw (r, i) (lem.1 id ne),
        rw (r, i) (note_buy_lem f inst (order_moved f o' e)),
        rw r refl,
      )
