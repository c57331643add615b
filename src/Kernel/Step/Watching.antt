-- ===== src/Kernel/Step/Watching.antt =====
-- backtesting-simulation/crates/coinext-kernel/src/backtest.rs: a run of a strategy that only watches.
use coinext.Prelude.{◌≡◌, refl, [], Option, some, none, inl, inr, Option-cases, keep, String}
use coinext.Core.Decimal.{Decimals}
use coinext.Core.Price.{Price}
use coinext.Core.Time.{UnixNanos}
use coinext.Model.Enums.{OrderSide}
use coinext.Model.Fill.{Fill}
use coinext.Model.Ids.{InstrumentId}
use coinext.Model.Instrument.{Instrument}
use coinext.Model.MarketData.{QuoteTick, TradeTick, Bar}
use coinext.Model.Order.{OrderEvent}
use coinext.Model.OrderBook.{OrderBook}
use coinext.Model.Position.{Position}
use coinext.Cache
use coinext.Cache.{Cache}
use coinext.Sim.Brokerage.{BrokerageModel}
use coinext.Kernel.{
  Action, done, reads, sets_timer, cancels_timer, mints, submits, cancels, modifies, Strategy,
  BacktestKernel,
}
use coinext.Kernel.Commands.{perform, notify_event, process_outbox}
use coinext.Kernel.Settle.{
  settlement_price, closing_side, closing_fill, close_with, close_on, close_found,
  close_position_at, cancel_loop, open_ids, close_if, settle_contract, book_closing,
}

module _ ⦃d : Decimals⦄ {S : Type 0} where
  -- A handler that reads and returns its state, and does nothing else.
  unfoldable pub IsWatching : Action S → Type 0
  IsWatching (done s) = Unit
  IsWatching (reads next) = (c : Cache) (t : UnixNanos) → IsWatching (next c t)
  IsWatching (sets_timer name at next) = ⊥
  IsWatching (cancels_timer id next) = ⊥
  IsWatching (mints change next) = ⊥
  IsWatching (submits o next) = ⊥
  IsWatching (cancels id next) = ⊥
  IsWatching (modifies id q p next) = ⊥

  pub record Watcher (strategy : Strategy S) : Type 0 where
    pub on_start : (s : S) → IsWatching (strategy.on_start s)
    pub on_quote : (q : QuoteTick) (s : S) → IsWatching (strategy.on_quote q s)
    pub on_trade : (t : TradeTick) (s : S) → IsWatching (strategy.on_trade t s)
    pub on_bar : (b : Bar) (s : S) → IsWatching (strategy.on_bar b s)
    pub on_book : (b : OrderBook) (s : S) → IsWatching (strategy.on_book b s)
    pub on_order_event : (ev : OrderEvent) (s : S) → IsWatching (strategy.on_order_event ev s)
    pub on_order_filled : (f : Fill) (s : S) → IsWatching (strategy.on_order_filled f s)

  -- Nothing is queued, at rest, on its way or set.
  pub record IsStill (k : BacktestKernel S) : Type 0 where
    pub outbox : k.ctx.outbox ≡ []
    pub resting : k.sim.resting ≡ []
    pub reports : k.sim.queue.heap ≡ []
    pub timers : k.clock.heap ≡ []
    pub orders : k.engine.cache.orders ≡ []

  with_state : (k : BacktestKernel S) (s : S) → IsStill k → IsStill (record k { state = s })
  with_state k s v = record {
    outbox = v.outbox;
    resting = v.resting;
    reports = v.reports;
    timers = v.timers;
    orders = v.orders;
  }

  pub perform-IsStill :
      (a : Action S) (k : BacktestKernel S) → IsWatching a → IsStill k → IsStill (perform a k)
  unfolding perform IsWatching
  perform-IsStill (done s) k w v = with_state k s v
  perform-IsStill (reads next) k w v =
      perform-IsStill (next k.engine.cache k.clock.now) k (w k.engine.cache k.clock.now) v
  perform-IsStill (sets_timer name at next) k w v = elim w [ ]
  perform-IsStill (cancels_timer id next) k w v = elim w [ ]
  perform-IsStill (mints change next) k w v = elim w [ ]
  perform-IsStill (submits o next) k w v = elim w [ ]
  perform-IsStill (cancels id next) k w v = elim w [ ]
  perform-IsStill (modifies id q p next) k w v = elim w [ ]

  module _ (strategy : Strategy S) (model : BrokerageModel) (watcher : Watcher strategy) where
    pub process_outbox-IsStill :
        (k : BacktestKernel S) → IsStill k → IsStill (process_outbox strategy model k)
    unfolding process_outbox
    process_outbox-IsStill k v = rw v.outbox (record {
      outbox = refl;
      resting = v.resting;
      reports = v.reports;
      timers = v.timers;
      orders = v.orders;
    })

    book_closing-IsStill :
        (f : Fill) (inst : Instrument) (p : Position) (k : BacktestKernel S)
        → IsStill k
        → IsStill (book_closing f inst p k)
    unfolding book_closing Cache.upsert_position
    book_closing-IsStill f inst p k v = record {
      outbox = v.outbox;
      resting = v.resting;
      reports = v.reports;
      timers = v.timers;
      orders = v.orders;
    }

    told_fill-IsStill :
        (f : Fill) (k : BacktestKernel S)
        → IsStill k
        → IsStill (notify_event strategy model (OrderEvent.filled f) k)
    unfolding notify_event
    told_fill-IsStill f k v =
        let l = perform (strategy.on_order_filled f k.state) k in
        perform-IsStill (strategy.on_order_event (OrderEvent.filled f) l.state) l
          (watcher.on_order_event (OrderEvent.filled f) l.state)
          (perform-IsStill (strategy.on_order_filled f k.state) k
            (watcher.on_order_filled f k.state) v)

    close_on-IsStill :
        (side : Option OrderSide) (inst : Instrument) (p : Position) (id : InstrumentId)
        (px : Price) (now : UnixNanos) (suffix : String) (k : BacktestKernel S)
        → IsStill k
        → IsStill (close_on strategy model side inst p id px now suffix k)
    unfolding close_with
    close_on-IsStill none inst p id px now suffix k v = v
    close_on-IsStill (some side) inst p id px now suffix k v =
        let f = closing_fill id px now suffix p inst side in
        process_outbox-IsStill
          (notify_event strategy model (OrderEvent.filled f) (book_closing f inst p k))
          (told_fill-IsStill f (book_closing f inst p k) (book_closing-IsStill f inst p k v))

    close_found-IsStill :
        (inst : Option Instrument) (p : Option Position) (id : InstrumentId) (px : Price)
        (now : UnixNanos) (suffix : String) (k : BacktestKernel S)
        → IsStill k
        → IsStill (close_found strategy model inst p id px now suffix k)
    close_found-IsStill none none id px now suffix k v = v
    close_found-IsStill none (some p) id px now suffix k v = v
    close_found-IsStill (some inst) none id px now suffix k v = v
    close_found-IsStill (some inst) (some p) id px now suffix k v =
        close_on-IsStill (closing_side p.side) inst p id px now suffix k v

    pub close_position_at-IsStill :
        (id : InstrumentId) (px : Price) (now : UnixNanos) (suffix : String) (k : BacktestKernel S)
        → IsStill k
        → IsStill (close_position_at strategy model id px now suffix k)
    unfolding close_position_at
    close_position_at-IsStill id px now suffix k v =
        close_found-IsStill (Cache.instrument k.engine.cache id) (Cache.position k.engine.cache id)
          id px now suffix k v

    close_if-IsStill :
        (px : Option Price) (id : InstrumentId) (now : UnixNanos) (k : BacktestKernel S)
        → IsStill k
        → IsStill (close_if strategy model px id now k)
    close_if-IsStill none id now k v = v
    close_if-IsStill (some px) id now k v = close_position_at-IsStill id px now "SETTLE" k v

    no_open_ids : (id : InstrumentId) (c : Cache) → c.orders ≡ [] → open_ids id c ≡ []
    unfolding keep
    no_open_ids id c e = rw e refl

    pub settle_contract-IsStill :
        (id : InstrumentId) (now : UnixNanos) (k : BacktestKernel S)
        → IsStill k
        → IsStill (settle_contract strategy model id now k)
    unfolding settle_contract cancel_loop
    settle_contract-IsStill id now k v = elim (Option-cases (Cache.instrument k.engine.cache id)) [
      | inl e ↦ rw (e, settle_contract) v
      | inr (inst, e) ↦
          let px = settlement_price k.engine.cache id inst in
          let w = close_if-IsStill px id now k v in
          rw
            (
              e,
              settle_contract,
              no_open_ids id (close_if strategy model px id now k).engine.cache w.orders,
            )
            w
    ]
