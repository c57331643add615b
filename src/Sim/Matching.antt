-- ===== src/Sim/Matching.antt =====
-- backtesting-simulation/crates/coinext-sim/src/lib.rs, `on_market`: what a market event decides for one
-- resting order. The loop of the code collects these in lists of indices; here each stands alone.
pub mod Sizes
pub mod Limits
pub mod Trailing
use coinext.Prelude.{ℕ, Bool, true, false, not, ◌&&◌, ◌||◌, Option, none, some, if◌then◌else◌}
use coinext.Prelude.Maps.{◌==◌}
use coinext.Core.Error.{Result, ok, err, unwrap_or}
use coinext.Core.Decimal.{Decimals, min}
use coinext.Core.Price
use coinext.Core.Price.{Price}
use coinext.Core.Quantity
use coinext.Core.Quantity.{Quantity}
use coinext.Model.Enums.{OrderSide, buy, sell, OrderType, maker, taker}
use coinext.Model.Ids.{InstrumentId, instrument_id_eq}
use coinext.Model.Instrument.{Instrument}
use coinext.Sim.Brokerage.{BrokerageModel}
use coinext.Sim.Tick.{Tick, Decision, Outcome, idle}
use coinext.Sim.Intake.{Resting, TrailState, is_trailing}

abbrev pub is_stop : OrderType → Bool
is_stop OrderType.market = false
is_stop OrderType.limit = false
is_stop _ = true

abbrev pub is_market_stop : OrderType → Bool
is_market_stop OrderType.stop_market = true
is_market_stop OrderType.trailing_stop_market = true
is_market_stop _ = false

abbrev pub is_stop_limit : OrderType → Bool
is_stop_limit OrderType.stop_limit = true
is_stop_limit _ = false

abbrev pub is_none : Option TrailState → Bool
is_none none = true
is_none (some t) = false

-- Whether a price is within a limit, and the price cut off at the limit.
abbrev pub within : OrderSide → Price → Price → Bool
within buy px lim = Price.le px lim
within sell px lim = Price.le lim px

abbrev pub capped : OrderSide → Price → Option Price → Price
capped side px none = px
capped buy px (some lim) = Price.min px lim
capped sell px (some lim) = Price.max px lim

abbrev pub still_marketable : OrderSide → Option Price → Price → Bool
still_marketable side none open_px = true
still_marketable side (some lim) open_px = within side open_px lim

abbrev pub taker_fill : Price → Quantity → Option Decision
taker_fill px qty =
    if Quantity.is_positive qty
    then some (record { fill_px = px; fill_qty = qty; new_queue = none; liquidity = taker })
    else none

module _ ⦃d : Decimals⦄ (model : BrokerageModel) (inst : Instrument) (t : Tick) where
  unfoldable pub available : Resting → Quantity
  available r = elim t.volume [
    | none ↦ r.remaining
    | some v ↦ model.fillable_qty r.remaining v inst
  ]

  -- An order that was marketable when it was taken is priced at the open, within its limit.
  unfoldable pub open_decision : Resting → Option Decision
  unfolding available Quantity.is_positive
  open_decision r =
      let raw_px = model.fill_price r.order t.open_px (some (t.low, t.high)) inst in
      if still_marketable r.order.side r.order.price t.open_px
      then taker_fill (capped r.order.side raw_px r.order.price) (available r)
      else none

  abbrev pub triggered : OrderSide → Price → Bool
  triggered buy trigger = Price.le trigger t.high
  triggered sell trigger = Price.le t.low trigger

  -- The trigger, worsened to the bar if the price gapped past it.
  abbrev stop_reference : OrderSide → Price → Price
  stop_reference buy trigger = Price.max trigger t.low
  stop_reference sell trigger = Price.min trigger t.high

  abbrev pub new_extreme : OrderSide → Price → Price
  new_extreme sell extreme = Price.max extreme t.high
  new_extreme buy extreme = Price.min extreme t.low

  abbrev pub new_trigger : OrderSide → Price → Price → Result Price
  new_trigger sell extreme offset = Price.checked_sub extreme offset
  new_trigger buy extreme offset = Price.checked_add extreme offset

  abbrev pub with_extreme : Price → Result Price → Option (Price × Price)
  with_extreme extreme (ok trigger) = some (extreme, trigger)
  with_extreme extreme (err e) = none

  unfoldable pub ratchet_of : OrderSide → Option TrailState → Option (Price × Price)
  ratchet_of side none = none
  ratchet_of side (some tr) =
      let extreme = new_extreme side tr.extreme in
      with_extreme extreme (new_trigger side extreme tr.offset)

  unfoldable pub stop_decision : Resting → Price → Option Decision
  unfolding available Quantity.is_positive
  stop_decision r trigger =
      let reference = stop_reference r.order.side trigger in
      taker_fill (model.fill_price r.order reference (some (t.low, t.high)) inst) (available r)

  unfoldable pub at_trigger : Resting → Price → Outcome
  unfolding stop_decision ratchet_of
  at_trigger r trigger =
      let hit = triggered r.order.side trigger in
      if hit && is_market_stop r.order.order_type
      then record idle { decision = stop_decision r trigger }
      else if hit && is_stop_limit r.order.order_type
      then record idle { activate = true }
      else if not hit && is_trailing r.order.order_type
      then record idle { ratchet = ratchet_of r.order.side r.trail }
      else idle

  unfoldable pub stop_outcome : Resting → Outcome
  unfolding at_trigger
  stop_outcome r =
      if is_trailing r.order.order_type && is_none r.trail
      then idle
      else elim r.order.trigger [ none ↦ idle | some trigger ↦ at_trigger r trigger ]

  -- A market remainder takes liquidity at the close of each bar.
  unfoldable pub remainder_decision : Resting → Option Decision
  unfolding Quantity.is_positive
  remainder_decision r = elim t.volume [
    | none ↦ none
    | some v ↦
        taker_fill (model.fill_price r.order t.close (some (t.low, t.high)) inst)
          (model.fillable_qty r.remaining v inst)
  ]

  abbrev pub through : OrderSide → Price → Bool
  through buy limit = Price.lt t.low limit
  through sell limit = Price.lt limit t.high

  abbrev pub touch : OrderSide → Price → Bool
  touch buy limit = Price.beq t.low limit
  touch sell limit = Price.beq t.high limit

  abbrev queue_of : Option Quantity → Quantity → Quantity
  queue_of none v = model.initial_queue_ahead v inst
  queue_of (some q) v = q

  -- What fills and what stays ahead, where the price only touches the level.
  unfoldable pub behind_queue : Quantity → Quantity → Quantity × Quantity
  behind_queue share queue =
      let prec = share.precision in
      let zero = Quantity.zero prec in
      let least = min (Quantity.as_decimal share) (Quantity.as_decimal queue) in
      let paid = unwrap_or (Quantity.from_decimal least prec) zero in
      (
        unwrap_or (Quantity.checked_sub share paid) zero,
        unwrap_or (Quantity.checked_sub queue paid) zero,
      )

  abbrev maker_fill : Price → Quantity × Quantity → Decision
  maker_fill limit (qty, queue) = record {
    fill_px = limit;
    fill_qty = qty;
    new_queue = some queue;
    liquidity = maker;
  }

  unfoldable pub passive_decision : Resting → Price → Option Decision
  unfolding behind_queue Quantity.is_positive
  passive_decision r limit = elim t.volume [
    | none ↦
        if Quantity.is_positive r.remaining
        then some (record {
          fill_px = limit;
          fill_qty = r.remaining;
          new_queue = none;
          liquidity = maker;
        })
        else none
    | some v ↦
        let share = model.fillable_qty r.remaining v inst in
        let swept : Quantity × Quantity = (share, Quantity.zero share.precision) in
        let fills =
          if through r.order.side limit
          then swept
          else behind_queue share (queue_of r.queue_ahead v) in
        some (maker_fill limit fills)
  ]

  unfoldable pub limit_decision : Resting → Price → Option Decision
  unfolding passive_decision
  limit_decision r limit =
      if through r.order.side limit || touch r.order.side limit
      then passive_decision r limit
      else none

  abbrev pub rest_decision : Resting → Option Price → Option Decision
  rest_decision r none = remainder_decision r
  rest_decision r (some limit) = limit_decision r limit

  unfoldable pub decide : InstrumentId → Resting → Outcome
  unfolding open_decision stop_outcome remainder_decision limit_decision
  decide id r =
      if not (r.order.instrument_id == id)
      then idle
      else if r.pending_open
      then record idle { clear_pending = true; decision = open_decision r }
      else if is_stop r.order.order_type
      then stop_outcome r
      else record idle { decision = rest_decision r r.order.price }
