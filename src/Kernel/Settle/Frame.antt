-- ===== src/Kernel/Settle/Frame.antt =====
-- backtesting-simulation/crates/coinext-kernel/src/backtest.rs: what settlement and liquidation leave
-- alone, and which expiries they pass.
use coinext.Prelude.{
  ◌≡◌, ◌∙◌, refl, List, [], ◌∷◌, Option, Option-cases, some, none, ltb, if◌then◌else◌, Bool-cases,
  inl, inr, String,
}
use coinext.Core.Decimal.{Decimals}
use coinext.Core.Price.{Price}
use coinext.Core.Time.{UnixNanos}
use coinext.Model.Enums.{OrderSide}
use coinext.Model.Fill.{Fill}
use coinext.Model.Ids.{InstrumentId, ClientOrderId}
use coinext.Model.Instrument.{Instrument}
use coinext.Model.Order.{OrderEvent}
use coinext.Model.Position.{Position}
use coinext.Cache
use coinext.Exec.Submit as Exec
use coinext.Portfolio.{gross_exposure, equity}
use coinext.Core.Money
use coinext.Sim.Brokerage.{BrokerageModel}
use coinext.Sim.Intake.{sim_venue}
use coinext.Kernel.{Strategy, BacktestKernel}
use coinext.Kernel.Commands.Frame.{
  Frame, Frame-refl, Frame-trans, same_rest, notify_event-Frame, notify_all-Frame,
  process_outbox-Frame,
}
use coinext.Kernel.Settle.{
  settlement_price, closing_side, closing_fill, book_closing, close_with, close_on, close_found,
  close_position_at, cancel_loop, open_ids, close_if, settle_contract, settle_loop, settle_expiries,
  liquidate_loop, open_positions, covered, liquidate_if, check_liquidation,
}

-- The expiries that are later than the frontier, where the earlier ones come first.
abbrev pub later : UnixNanos → List (UnixNanos × InstrumentId) → List (UnixNanos × InstrumentId)
later frontier [] = []
later frontier ((ts, id) ∷ rest) = if ltb frontier ts then (ts, id) ∷ rest else later frontier rest

module _ ⦃d : Decimals⦄ {S : Type 0} (strategy : Strategy S) (model : BrokerageModel) where
  close_with-Frame :
      (f : Fill) (inst : Instrument) (p : Position) (k : BacktestKernel S)
      → Frame k (close_with strategy model f inst p k)
  unfolding close_with
  close_with-Frame f inst p k =
      let booked = book_closing f inst p k in
      Frame-trans (same_rest k booked.engine k.sim k.state k.ctx booked.result) (
        Frame-trans (notify_event-Frame strategy model (OrderEvent.filled f) booked)
          (process_outbox-Frame strategy model _))

  close_on-Frame :
      (side : Option OrderSide) (inst : Instrument) (p : Position) (id : InstrumentId) (px : Price)
      (now : UnixNanos) (suffix : String) (k : BacktestKernel S)
      → Frame k (close_on strategy model side inst p id px now suffix k)
  close_on-Frame none inst p id px now suffix k = Frame-refl k
  close_on-Frame (some side) inst p id px now suffix k =
      close_with-Frame (closing_fill id px now suffix p inst side) inst p k

  close_found-Frame :
      (inst : Option Instrument) (p : Option Position) (id : InstrumentId) (px : Price)
      (now : UnixNanos) (suffix : String) (k : BacktestKernel S)
      → Frame k (close_found strategy model inst p id px now suffix k)
  close_found-Frame none none id px now suffix k = Frame-refl k
  close_found-Frame none (some p) id px now suffix k = Frame-refl k
  close_found-Frame (some inst) none id px now suffix k = Frame-refl k
  close_found-Frame (some inst) (some p) id px now suffix k =
      close_on-Frame (closing_side p.side) inst p id px now suffix k

  close_position_at-Frame :
      (id : InstrumentId) (px : Price) (now : UnixNanos) (suffix : String) (k : BacktestKernel S)
      → Frame k (close_position_at strategy model id px now suffix k)
  unfolding close_position_at
  close_position_at-Frame id px now suffix k =
      close_found-Frame (Cache.instrument k.engine.cache id) (Cache.position k.engine.cache id) id
        px now suffix k

  cancel_loop-Frame :
      (ids : List ClientOrderId) (now : UnixNanos) (k : BacktestKernel S)
      → Frame k (cancel_loop strategy model ids now k)
  unfolding cancel_loop
  cancel_loop-Frame [] now k = Frame-refl k
  cancel_loop-Frame (id ∷ ids) now k =
      let r = Exec.cancel (sim_venue k.clock.now model.latency_ns) id now (k.engine, k.sim) in
      Frame-trans (same_rest k r.0.0 r.0.1 k.state k.ctx k.result)
        (Frame-trans (notify_all-Frame strategy model r.1 _) (cancel_loop-Frame ids now _))

  close_if-Frame :
      (px : Option Price) (id : InstrumentId) (now : UnixNanos) (k : BacktestKernel S)
      → Frame k (close_if strategy model px id now k)
  close_if-Frame none id now k = Frame-refl k
  close_if-Frame (some px) id now k = close_position_at-Frame id px now "SETTLE" k

  settle_contract-Frame :
      (id : InstrumentId) (now : UnixNanos) (k : BacktestKernel S)
      → Frame k (settle_contract strategy model id now k)
  unfolding settle_contract
  settle_contract-Frame id now k = elim (Option-cases (Cache.instrument k.engine.cache id)) [
    | inl e ↦ rw (e, settle_contract) (Frame-refl k)
    | inr (inst, e) ↦
        let k' = close_if strategy model (settlement_price k.engine.cache id inst) id now k in
        rw (e, settle_contract)
          (Frame-trans (close_if-Frame (settlement_price k.engine.cache id inst) id now k)
            (cancel_loop-Frame (open_ids id k'.engine.cache) now k'))
  ]

  liquidate_loop-Frame :
      (ids : List InstrumentId) (now : UnixNanos) (k : BacktestKernel S)
      → Frame k (liquidate_loop strategy model ids now k)
  unfolding liquidate_loop
  liquidate_loop-Frame [] now k = Frame-refl k
  liquidate_loop-Frame (id ∷ ids) now k = elim (Option-cases (Cache.mark k.engine.cache id)) [
    | inl e ↦ rw (e, liquidate_loop) (liquidate_loop-Frame ids now k)
    | inr (px, e) ↦
        rw (e, liquidate_loop)
          (Frame-trans (close_position_at-Frame id px now "LIQ" k) (liquidate_loop-Frame ids now _))
  ]

  liquidate_if-Frame :
      (rate : Option d.Decimal) (now : UnixNanos) (k : BacktestKernel S)
      → Frame k (liquidate_if strategy model rate now k)
  liquidate_if-Frame none now k = Frame-refl k
  liquidate_if-Frame (some rate) now k =
      let c = k.engine.cache in
      let gross = Money.amount (gross_exposure k.settle c) in
      elim (Bool-cases (covered gross (Money.amount (equity k.settle c)) rate)) [
        | inl e ↦ rw e (Frame-refl k)
        | inr e ↦ rw e (liquidate_loop-Frame (open_positions c) now k)
      ]

  pub check_liquidation-Frame :
      (now : UnixNanos) (k : BacktestKernel S) → Frame k (check_liquidation strategy model now k)
  unfolding check_liquidation
  check_liquidation-Frame now k = liquidate_if-Frame k.maintenance_margin_rate now k

  -- Settlement passes the expiries that are due and no others, and leaves the rest alone.
  pub record Settled (k k' : BacktestKernel S) (left : List (UnixNanos × InstrumentId))
      : Type 0 where
    pub now : k'.clock.now ≡ k.clock.now
    pub events : k'.events ≡ k.events
    pub expiries : k'.expiries ≡ left
    pub risk : k'.risk ≡ k.risk

  settle_loop-Settled :
      (es : List (UnixNanos × InstrumentId)) (frontier : UnixNanos) (k : BacktestKernel S)
      → k.expiries ≡ es
      → Settled k (settle_loop strategy model es frontier k) (later frontier es)
  unfolding settle_loop
  settle_loop-Settled [] frontier k h = record {
    now = refl;
    events = refl;
    expiries = h;
    risk = refl;
  }
  settle_loop-Settled ((ts, id) ∷ rest) frontier k h = elim (Bool-cases (ltb frontier ts)) [
    | inl e ↦ rw e (record { now = refl; events = refl; expiries = h; risk = refl })
    | inr e ↦
        let k1 : BacktestKernel S = record k { expiries = rest } in
        let f = settle_contract-Frame id frontier k1 in
        let s =
          settle_loop-Settled rest frontier (settle_contract strategy model id frontier k1)
            f.expiries in
        rw e (record {
          now = s.now ∙ f.now;
          events = s.events ∙ f.events;
          expiries = s.expiries;
          risk = s.risk ∙ f.risk;
        })
  ]

  pub settle_expiries-Settled :
      (frontier : UnixNanos) (k : BacktestKernel S)
      → Settled k (settle_expiries strategy model frontier k) (later frontier k.expiries)
  unfolding settle_expiries
  settle_expiries-Settled frontier k = settle_loop-Settled k.expiries frontier k refl
