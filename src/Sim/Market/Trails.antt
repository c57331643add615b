-- ===== src/Sim/Market/Trails.antt =====
-- backtesting-simulation/crates/coinext-sim: trailing stops across a market event.
use coinext.Prelude.{◌≡◌, ◌∙◌, refl, Bool, true, false, Option-cases, none, some, arith, inl, inr}
use coinext.Core.Decimal.{Decimals}
use coinext.Core.Price.{Price}
use coinext.Model.Enums.{OrderSide, buy, sell}
use coinext.Model.Ids.{InstrumentId}
use coinext.Model.Instrument.{Instrument}
use coinext.Sim.Brokerage.{BrokerageModel}
use coinext.Sim.Tick.{Tick, Outcome}
use coinext.Sim.Intake.{Resting, TrailState}
use coinext.Sim.Matching.{decide}
use coinext.Sim.Matching.Trailing.{IsTight, NoLooser, ratchet_tightens, decide_ratchet}
use coinext.Sim.Market.{write_back, activate, clear_pending, ratchet}

-- A trailing stop that rests: its track, and the trigger that its order has.
pub record Trails (r : Resting) (track : TrailState) (p : Price) : Type 0 where
  pub tracked : r.trail ≡ some track
  pub armed : r.order.trigger ≡ some p
  pub tight : IsTight r.order.side track p

flags_keep :
    (b c : Bool) (r : Resting)
    → let s = activate c (clear_pending b r) in
      (s.trail ≡ r.trail) × (s.order.side ≡ r.order.side) × (s.order.trigger ≡ r.order.trigger)
flags_keep true true r = (refl, refl, refl)
flags_keep true false r = (refl, refl, refl)
flags_keep false true r = (refl, refl, refl)
flags_keep false false r = (refl, refl, refl)

ratchet-Trails :
    (r : Resting) (track : TrailState) (x q : Price)
    → r.trail ≡ some track
    → IsTight r.order.side (record track { extreme = x }) q
    → Trails (ratchet (some (x, q)) r) (record track { extreme = x }) q
ratchet-Trails r track x q e v = record { tracked = rw e refl; armed = refl; tight = v }

still-Trails :
    (o : Outcome) (r : Resting) (track : TrailState) (p : Price)
    → o.ratchet ≡ none
    → Trails r track p
    → Trails (write_back o r) track p
unfolding write_back
still-Trails o r track p e v =
    let (a, b, c) = flags_keep o.clear_pending o.activate r in
    rw e (record { tracked = a ∙ v.tracked; armed = c ∙ v.armed; tight = rw b v.tight })

now-Trails :
    (o : Outcome) (r : Resting) (track : TrailState) (x q : Price)
    → o.ratchet ≡ some (x, q)
    → r.trail ≡ some track
    → IsTight r.order.side (record track { extreme = x }) q
    → Trails (write_back o r) (record track { extreme = x }) q
unfolding write_back
now-Trails o r track x q e f v =
    let (a, b, c) = flags_keep o.clear_pending o.activate r in
    rw e (
      ratchet-Trails (activate o.activate (clear_pending o.clear_pending r)) track x q (a ∙ f)
        (rw b v))

NoLooser-refl : (side : OrderSide) (p : Price) → NoLooser side p p
NoLooser-refl buy p = omega arith
NoLooser-refl sell p = omega arith

module _ ⦃d : Decimals⦄ (model : BrokerageModel) (inst : Instrument) (t : Tick)
    (id : InstrumentId) where
  -- Whatever an event decides for a trailing stop, its trigger stays at the offset from the extreme and
  -- does not move away from the market: it does not fall for a sale and does not rise for a buy.
  pub trail_tightens :
      (r : Resting) (track : TrailState) (p : Price)
      → Trails r track p
      → let s = write_back (decide model inst t id r) r in
        (x q : Price) × Trails s (record track { extreme = x }) q × NoLooser r.order.side p q
  trail_tightens r track p v =
      let o = decide model inst t id r in
      elim (Option-cases o.ratchet) [
        | inl e ↦ (track.extreme, p, still-Trails o r track p e v, NoLooser-refl r.order.side p)
        | inr ((x, q), e) ↦
            let moved = rw v.tracked at (decide_ratchet model inst t id r e) in
            let (tight, up) =
              ratchet_tightens model inst t r.order.side track p x q v.tight moved in
            (x, q, now-Trails o r track x q e v.tracked tight, up)
      ]
