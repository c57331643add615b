-- ===== src/Kernel/Live/Handled.antt =====
-- backtesting-simulation/crates/coinext-kernel/src/live.rs: what handlers leave alone.
use coinext.Prelude.{ℕ, ◌≡◌, ◌∙◌, refl, List, [], ◌∷◌, Option-cases, inl, inr}
use coinext.Core.Decimal.{Decimals}
use coinext.Core.SystemClock
use coinext.Core.Time.{UnixNanos}
use coinext.Model.MarketData.{MarketEvent}
use coinext.Model.Order.{Order, OrderEvent}
use coinext.Cache
use coinext.Exec.Submit.{apply_or_keep, track}
use coinext.Ports.Context
use coinext.Kernel.{
  Action, done, reads, sets_timer, cancels_timer, mints, submits, cancels, modifies, Strategy,
}
use coinext.Kernel.Live.{
  ExecutionClient, DataClient, LiveKernel, perform, notify_event, notify_all, dispatch_market,
  tell_order,
}

module _ ⦃d : Decimals⦄ {S : Type 0} (wall : ℕ → UnixNanos) (exec : ExecutionClient)
    (data_port : DataClient) (strategy : Strategy S) where
  abbrev K : Type 0
  K = LiveKernel S exec data_port

  -- Handlers do not touch the clients or the risk settings, and engine and ports only change elsewhere.
  pub record Handled (k k' : K) : Type 0 where
    pub exec_client : k'.exec_client ≡ k.exec_client
    pub risk : k'.risk ≡ k.risk

  pub Handled-refl : (k : K) → Handled k k
  Handled-refl k = record { exec_client = refl; risk = refl }

  pub Handled-trans : {k l m : K} → Handled k l → Handled l m → Handled k m
  Handled-trans f g = record { exec_client = g.exec_client ∙ f.exec_client; risk = g.risk ∙ f.risk }

  pub perform-Handled :
      (a : Action S) (k : K) → Handled k (perform wall exec data_port strategy a k)
  unfolding perform SystemClock.now_ns
  perform-Handled (done s) k = record { exec_client = refl; risk = refl }
  perform-Handled (reads next) k =
      let e = perform-Handled (next k.engine.cache (wall k.clock.readings)) _ in
      record { exec_client = e.exec_client; risk = e.risk }
  perform-Handled (sets_timer name at next) k =
      let r = SystemClock.set_timer k.clock at in
      let e = perform-Handled (next r.1) (record k { clock = r.0 }) in
      record { exec_client = e.exec_client; risk = e.risk }
  perform-Handled (cancels_timer id next) k =
      let e = perform-Handled next (record k { clock = SystemClock.cancel_timer k.clock id }) in
      record { exec_client = e.exec_client; risk = e.risk }
  perform-Handled (mints change next) k =
      let f = change k.ctx.factory in
      let e = perform-Handled (next f) (record k { ctx = record k.ctx { factory = f } }) in
      record { exec_client = e.exec_client; risk = e.risk }
  perform-Handled (submits o next) k =
      let e = perform-Handled next (record k { ctx = Context.submit o k.ctx }) in
      record { exec_client = e.exec_client; risk = e.risk }
  perform-Handled (cancels id next) k =
      let e = perform-Handled next (record k { ctx = Context.cancel id k.ctx }) in
      record { exec_client = e.exec_client; risk = e.risk }
  perform-Handled (modifies id q p next) k =
      let e = perform-Handled next (record k { ctx = Context.modify id q p k.ctx }) in
      record { exec_client = e.exec_client; risk = e.risk }

  told :
      (ev : OrderEvent) (k : K)
      → Handled k (perform wall exec data_port strategy (strategy.on_order_event ev k.state) k)
  told ev k = perform-Handled (strategy.on_order_event ev k.state) k

  pub notify_event-Handled :
      (ev : OrderEvent) (k : K) → Handled k (notify_event wall exec data_port strategy ev k)
  unfolding notify_event
  notify_event-Handled (OrderEvent.filled f) k =
      Handled-trans (perform-Handled (strategy.on_order_filled f k.state) k)
        (told (OrderEvent.filled f) _)
  notify_event-Handled (OrderEvent.partially_filled f) k =
      Handled-trans (perform-Handled (strategy.on_order_filled f k.state) k)
        (told (OrderEvent.partially_filled f) _)
  notify_event-Handled (OrderEvent.initialized i) k = told (OrderEvent.initialized i) k
  notify_event-Handled (OrderEvent.submitted t) k = told (OrderEvent.submitted t) k
  notify_event-Handled (OrderEvent.accepted v t) k = told (OrderEvent.accepted v t) k
  notify_event-Handled (OrderEvent.pending_update t) k = told (OrderEvent.pending_update t) k
  notify_event-Handled (OrderEvent.updated q p t) k = told (OrderEvent.updated q p t) k
  notify_event-Handled (OrderEvent.pending_cancel t) k = told (OrderEvent.pending_cancel t) k
  notify_event-Handled (OrderEvent.denied r t) k = told (OrderEvent.denied r t) k
  notify_event-Handled (OrderEvent.rejected r t) k = told (OrderEvent.rejected r t) k
  notify_event-Handled (OrderEvent.canceled t) k = told (OrderEvent.canceled t) k
  notify_event-Handled (OrderEvent.expired t) k = told (OrderEvent.expired t) k

  pub notify_all-Handled :
      (evs : List OrderEvent) (k : K) → Handled k (notify_all wall exec data_port strategy evs k)
  unfolding notify_all
  notify_all-Handled [] k = Handled-refl k
  notify_all-Handled (ev ∷ evs) k =
      Handled-trans (notify_event-Handled ev k) (notify_all-Handled evs _)

  pub dispatch_market-Handled :
      (ev : MarketEvent) (k : K) → Handled k (dispatch_market wall exec data_port strategy ev k)
  unfolding dispatch_market
  dispatch_market-Handled (MarketEvent.quote q) k = perform-Handled (strategy.on_quote q k.state) k
  dispatch_market-Handled (MarketEvent.trade t) k = perform-Handled (strategy.on_trade t k.state) k
  dispatch_market-Handled (MarketEvent.bar b) k = perform-Handled (strategy.on_bar b k.state) k
  dispatch_market-Handled (MarketEvent.delta u) k =
      elim (Option-cases (Cache.order_book k.engine.cache u.instrument_id)) [
        | inl e ↦ rw (e, dispatch_market) (Handled-refl k)
        | inr (b, e) ↦ rw (e, dispatch_market) (perform-Handled (strategy.on_book b k.state) k)
      ]

  pub tell_order-Handled :
      (o : Order) (ev : OrderEvent) (k : K)
      → Handled k (tell_order wall exec data_port strategy o ev k)
  tell_order-Handled o ev k =
      let e = notify_event-Handled ev (record k { engine = track (apply_or_keep o ev) k.engine }) in
      record { exec_client = e.exec_client; risk = e.risk }
