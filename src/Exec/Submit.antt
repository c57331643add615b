-- ===== src/Exec/Submit.antt =====
-- execution-live/crates/coinext-exec-engine/src/lib.rs: `submit` and `cancel`. The state is the engine
-- and the venue's own state; the result has the events for the strategy beside it.
pub mod Gate
pub mod Once
use Prim.Native.String.{◌++◌}
use coinext.Prelude.{
  Bool, true, false, ◌&&◌, Option, none, some, List, [], ◌∷◌, String, leb, if◌then◌else◌,
}
use coinext.Core.Error.{Result, ok, err, unwrap_or}
use coinext.Core.Decimal.{Decimals, lt}
use coinext.Core.Quantity
use coinext.Core.Time.{UnixNanos}
use coinext.Model.Enums.{OrderSide, buy, sell}
use coinext.Model.Ids.{ClientOrderId}
use coinext.Model.Order
use coinext.Model.Order.{Order, OrderEvent}
use coinext.Model.Instrument.{Instrument, expiry_ns}
use coinext.Cache
use coinext.Ports.{
  Portfolio, RiskEngine, RiskDecision, Venue, DenyReason, to_text, approved, denied,
}
use coinext.Exec.{ExecutionEngine}
use coinext.Exec.Session.{is_ashare_equity, price_limit_violation, sellable_qty}

abbrev pub is_some {ℓ} : {A : Type ℓ} → Option A → Bool
is_some none = false
is_some (some a) = true

abbrev pub is_sell : OrderSide → Bool
is_sell sell = true
is_sell buy = false

module _ ⦃d : Decimals⦄ where
  -- `let _ = order.apply(ev)`: a refused event leaves the order as it was.
  abbrev pub apply_or_keep : Order → OrderEvent → Order
  apply_or_keep o ev = unwrap_or (Order.apply o ev) o

  abbrev pub track : Order → ExecutionEngine → ExecutionEngine
  track o e = record e { cache = Cache.add_order o e.cache }

  -- The denied order, tracked, and its event.
  unfoldable pub deny :
      Order → String → UnixNanos → ExecutionEngine → ExecutionEngine × List OrderEvent
  deny o reason now e =
      let ev = OrderEvent.denied reason now in (track (apply_or_keep o ev) e, ev ∷ [])

  abbrev pub passed : Option UnixNanos → UnixNanos → Bool
  passed none now = false
  passed (some expiry) now = leb expiry now

  unfoldable pub sellable_text : d.Decimal → d.Decimal → String
  sellable_text sellable qty =
      to_text DenyReason.t_plus_one
      ++ (": sellable " ++ (d.to_text sellable ++ (" < " ++ d.to_text qty)))

  unfoldable pub t_plus_one_violation :
      Portfolio → Instrument → Order → UnixNanos → ExecutionEngine → Option String
  unfolding is_ashare_equity sellable_qty sellable_text
  t_plus_one_violation portfolio inst o now e =
      let sellable = sellable_qty portfolio o.instrument_id now inst e in
      let qty = Quantity.as_decimal o.quantity in
      if is_sell o.side && (is_ashare_equity inst && lt sellable qty)
      then some (sellable_text sellable qty)
      else none

  module _ (risk : RiskEngine) (portfolio : Portfolio) (sim : Venue) where
    abbrev pub State : Type 0
    State = ExecutionEngine × sim.State

    abbrev pub with_venue : ExecutionEngine × List OrderEvent → sim.State → State × List OrderEvent
    with_venue r v = ((r.0, v), r.1)

    unfoldable pub route : Order → UnixNanos → State → State × List OrderEvent
    route o now s =
        let ev = OrderEvent.submitted now in
        let sent = apply_or_keep o ev in
        let e = track sent s.0 in ((e, sim.on_submit e.cache sent s.1), ev ∷ [])

    unfoldable pub decide : Instrument → Order → UnixNanos → State → State × List OrderEvent
    unfolding deny route
    decide inst o now s = elim (risk.check s.0.cache o portfolio inst) [
      | approved ↦ route o now s
      | denied r ↦ with_venue (deny o (to_text r) now s.0) s.1
    ]

    unfoldable pub screen_limit : Instrument → Order → UnixNanos → State → State × List OrderEvent
    unfolding decide price_limit_violation deny
    screen_limit inst o now s =
        let (e, why) = price_limit_violation inst o now s.0 in
        elim why [
          | some reason ↦ with_venue (deny o reason now e) s.1
          | none ↦ decide inst o now (e, s.1)
        ]

    unfoldable pub screen : Instrument → Order → UnixNanos → State → State × List OrderEvent
    unfolding t_plus_one_violation deny screen_limit
    screen inst o now s =
        if passed (expiry_ns inst) now
        then with_venue (deny o "instrument expired" now s.0) s.1
        else elim (t_plus_one_violation portfolio inst o now s.0) [
          | some reason ↦ with_venue (deny o reason now s.0) s.1
          | none ↦ screen_limit inst o now s
        ]

    unfoldable pub submit : Order → UnixNanos → State → State × List OrderEvent
    unfolding screen
    submit o now s =
        if is_some (Cache.order s.0.cache o.client_order_id)
        then (s, [])
        else elim (Cache.instrument s.0.cache o.instrument_id) [
          | none ↦ (s, [])
          | some inst ↦ screen inst o now s
        ]

  -- An event for a tracked order: what it wrote, if the order took it.
  unfoldable pub feed_order :
      ClientOrderId → OrderEvent → ExecutionEngine → ExecutionEngine × List OrderEvent
  feed_order id ev e = elim (Cache.order e.cache id) [
    | none ↦ (e, [])
    | some o ↦ elim (Order.apply o ev) [
      | err x ↦ (e, [])
      | ok o' ↦ (record e { cache = Cache.set_order id o' e.cache }, ev ∷ [])
    ]
  ]

  unfoldable pub cancel :
      (sim : Venue)
      → ClientOrderId
      → UnixNanos
      → ExecutionEngine × sim.State
      → (ExecutionEngine × sim.State) × List OrderEvent
  unfolding feed_order
  cancel sim id now s =
      let (e, events) = feed_order id (OrderEvent.pending_cancel now) s.0 in
      ((e, sim.on_cancel id s.1), events)
