-- ===== src/Sim/Matching/Limits.antt =====
-- backtesting-simulation/crates/coinext-sim: the price of a fill of an order with a limit.
use coinext.Prelude.{
  ◌≡◌, Bool, true, false, Option, none, some, arith, Bool-cases, ◌⊎◌, inl, inr, if◌then◌else◌,
}
use coinext.Prelude.Maps.{some_inj}
use coinext.Core.Decimal.{Decimals}
use coinext.Core.Price.{Price}
use coinext.Core.Quantity.{Quantity}
use coinext.Model.Enums.{OrderSide, buy, sell}
use coinext.Model.Ids.{InstrumentId, instrument_id_eq}
use coinext.Model.Instrument.{Instrument}
use coinext.Sim.Brokerage.{BrokerageModel}
use coinext.Sim.Tick.{Tick, Decision}
use coinext.Sim.Intake.{Resting}
use coinext.Sim.Matching.{
  within, capped, taker_fill, available, open_decision, passive_decision, limit_decision, decide,
  is_stop,
}

capped-within :
    (side : OrderSide) (px lim : Price) → within side (capped side px (some lim)) lim ≡ true
capped-within buy px lim = ground arith
capped-within sell px lim = ground arith

capped_price_within :
    (side : OrderSide) (px lim : Price) (o : Option Price)
    → o ≡ some lim
    → within side (capped side px o) lim ≡ true
capped_price_within side px lim none e = absurd (cc)
capped_price_within side px lim (some l) e = rw (some_inj e) (capped-within side px lim)

within_self : (side : OrderSide) (lim : Price) → within side lim lim ≡ true
within_self buy lim = ground arith
within_self sell lim = ground arith

if_some :
    {A : Type 0} {a : A} (b : Bool) (o : Option A) → (if b then o else none) ≡ some a → o ≡ some a
if_some true o h = h
if_some false o h = absurd (cc)

taker_fill_px :
    (px : Price) (q : Quantity) {dec : Decision} → taker_fill px q ≡ some dec → dec.fill_px ≡ px
taker_fill_px px q h = ground (arith)

module _ ⦃d : Decimals⦄ (model : BrokerageModel) (inst : Instrument) (t : Tick) (r : Resting)
    (lim : Price) where
  passive_px : {dec : Decision} → passive_decision model inst t r lim ≡ some dec → dec.fill_px ≡ lim
  unfolding passive_decision
  passive_px h = ground arith

  limit_px : {dec : Decision} → limit_decision model inst t r lim ≡ some dec → dec.fill_px ≡ lim
  unfolding limit_decision
  limit_px {dec} h = ground (arith, passive_px {dec = dec})

  open_px-within :
      {dec : Decision}
      → r.order.price ≡ some lim
      → open_decision model inst t r ≡ some dec
      → within r.order.side dec.fill_px lim ≡ true
  unfolding open_decision
  open_px-within {dec} e h =
      let px = model.fill_price r.order t.open_px (some (t.low, t.high)) inst in
      let at =
        taker_fill_px (capped r.order.side px r.order.price) (available model inst t r) {dec = dec}
          (if_some _ _ h) in
      rw at (capped_price_within r.order.side px lim r.order.price e)

  pending_opens :
      (id : InstrumentId) {dec : Decision}
      → r.pending_open ≡ true
      → (decide model inst t id r).decision ≡ some dec
      → open_decision model inst t r ≡ some dec
  unfolding decide
  pending_opens id p h = ground arith

  rests_at_limit :
      (id : InstrumentId) {dec : Decision}
      → r.pending_open ≡ false
      → is_stop r.order.order_type ≡ false
      → r.order.price ≡ some lim
      → (decide model inst t id r).decision ≡ some dec
      → limit_decision model inst t r lim ≡ some dec
  unfolding decide
  rests_at_limit id p k e h = ground arith

  -- A fill of an order with a limit, unless the order is a stop that still waits, is no worse than the
  -- limit: not above it for a buy, not below it for a sale.
  pub decide-within :
      (id : InstrumentId) {dec : Decision}
      → r.order.price ≡ some lim
      → (r.pending_open ≡ true) ⊎ (is_stop r.order.order_type ≡ false)
      → (decide model inst t id r).decision ≡ some dec
      → within r.order.side dec.fill_px lim ≡ true
  unfolding decide
  decide-within id {dec} e (inl pending) h = open_px-within e (pending_opens id pending h)
  decide-within id {dec} e (inr resting) h = elim (Bool-cases r.pending_open) [
    | inl pending ↦ open_px-within e (pending_opens id pending h)
    | inr later ↦ rw (limit_px (rests_at_limit id later resting e h)) (within_self r.order.side lim)
  ]
