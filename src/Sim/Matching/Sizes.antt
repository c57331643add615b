-- ===== src/Sim/Matching/Sizes.antt =====
-- backtesting-simulation/crates/coinext-sim: how large a decided fill is.
use coinext.Prelude.{
  ℕ, ◌∙◌, ◌≤◌, ◌≡◌, refl, Bool, true, false, Option, Option-cases, none, some, arith, Bool-cases,
  inl, inr, if◌then◌else◌, not, ◌&&◌,
}
use coinext.Prelude.Int.{pos, ℤ, pos_part, ◌-ℤ◌, ◌≤ℤ◌}
use coinext.Prelude.Maps.{◌==◌}
use coinext.Core.Error.{Result-cases, ok, unwrap_or}
use coinext.Core.Decimal.{Decimals}
use coinext.Core.Price.{Price}
use coinext.Core.Quantity
use coinext.Core.Quantity.{Quantity}
use coinext.Core.Quantity.RoundTrip.{IsValid}
use coinext.Model.Ids.{InstrumentId, instrument_id_eq}
use coinext.Model.Instrument.{Instrument}
use coinext.Sim.Brokerage.{BrokerageModel}
use coinext.Sim.Tick.{Tick, Decision, Outcome, idle}
use coinext.Sim.Intake.{Resting, is_trailing}
use coinext.Sim.Matching.{
  available, taker_fill, open_decision, stop_decision, at_trigger, stop_outcome, remainder_decision,
  behind_queue, passive_decision, limit_decision, decide, still_marketable, through, rest_decision,
  triggered, is_market_stop, is_stop_limit,
}

-- A valid size of the same precision that is at most `leaves`.
pub record IsPart (leaves q : Quantity) : Type 0 where
  pub valid : IsValid q
  pub same : q.precision ≡ leaves.precision
  pub bounded : pos_part q.raw ≤ pos_part leaves.raw

-- What the trait asks of a model: "MUST return `<= leaves` (never over-fill)".
abbrev pub IsBounded : ⦃d : Decimals⦄ → BrokerageModel → Type 0
IsBounded ⦃d⦄ model =
    (leaves v : Quantity) (inst : Instrument)
    → IsValid leaves
    → IsPart leaves (model.fillable_qty leaves v inst)

-- No fill, or one of a part of `leaves`.
pub data Within (leaves : Quantity) : Option Decision → Type 0 where
  nothing : Within leaves none
  part : (dec : Decision) → IsPart leaves dec.fill_qty → Within leaves (some dec)

pub IsPart-of :
    {leaves : Quantity} {dec : Decision} → Within leaves (some dec) → IsPart leaves dec.fill_qty
IsPart-of (part dec p) = p

record Fits (leaves : Quantity) (o : Outcome) : Type 0 where
  fits : Within leaves o.decision

pub IsPart-self : (q : Quantity) → IsValid q → IsPart q q
IsPart-self q v = record { valid = v; same = refl; bounded = omega arith }

taker_fill-Within :
    (leaves q : Quantity) (px : Price) → IsPart leaves q → Within leaves (taker_fill px q)
taker_fill-Within leaves q px p = elim (Bool-cases (Quantity.is_positive q)) [
  | inl e ↦ rw e (part _ p)
  | inr e ↦ rw e nothing
]

-- A part of a part.
IsPart-trans : (p q s : Quantity) → IsPart p q → IsPart q s → IsPart p s
IsPart-trans p q s h k = record {
  valid = k.valid;
  same = k.same ∙ h.same;
  bounded = omega (arith, k.bounded, h.bounded);
}

zero-IsPart : (q : Quantity) → IsValid q → IsPart q (Quantity.zero q.precision)
unfolding Quantity.zero
zero-IsPart q v = record {
  valid = record { nonneg = omega arith; fits_i64 = omega arith; supported = v.supported };
  same = refl;
  bounded = omega arith;
}

from_raw_nonneg : (raw : ℤ) (p : ℕ) {q : Quantity} → Quantity.from_raw raw p ≡ ok q → pos 0 ≤ℤ q.raw
unfolding Quantity.from_raw
from_raw_nonneg raw p h = ground arith

-- A size less another, or zero where it cannot be subtracted.
less-IsPart :
    (q o : Quantity)
    → IsValid q
    → pos 0 ≤ℤ o.raw
    → IsPart q (unwrap_or (Quantity.checked_sub q o) (Quantity.zero q.precision))
unfolding Quantity.checked_sub Quantity.from_raw Quantity.zero ◌-ℤ◌
less-IsPart q o v n = ground arith

module _ ⦃d : Decimals⦄ (a : d.Decimal) (p : ℕ) where
  from_decimal_nonneg : {q : Quantity} → Quantity.from_decimal a p ≡ ok q → pos 0 ≤ℤ q.raw
  unfolding Quantity.from_decimal
  from_decimal_nonneg h = ground arith

  or_zero_nonneg : pos 0 ≤ℤ (unwrap_or (Quantity.from_decimal a p) (Quantity.zero p)).raw
  unfolding Quantity.zero
  or_zero_nonneg = elim (Result-cases (Quantity.from_decimal a p)) [
    | inl (q, e) ↦ rw e (from_decimal_nonneg e)
    | inr (x, e) ↦ rw e (omega arith)
  ]

module _ (leaves : Quantity) where
  Within_if :
      (b : Bool) (x y : Option Decision)
      → Within leaves x
      → Within leaves y
      → Within leaves (if b then x else y)
  Within_if true x y h k = h
  Within_if false x y h k = k

  Fits-if :
      (b : Bool) (x y : Outcome) → Fits leaves x → Fits leaves y → Fits leaves (if b then x else y)
  Fits-if true x y h k = h
  Fits-if false x y h k = k

idle-Fits : (leaves : Quantity) (o : Outcome) → o.decision ≡ none → Fits leaves o
idle-Fits leaves o e = record { fits = rw e nothing }

module _ ⦃d : Decimals⦄ (model : BrokerageModel) (bounded : IsBounded model) (inst : Instrument)
    (t : Tick) (r : Resting) (v : IsValid r.remaining) where
  available-IsPart : IsPart r.remaining (available model inst t r)
  unfolding available
  available-IsPart = elim (Option-cases t.volume) [
    | inl e ↦ rw (e, available) (IsPart-self r.remaining v)
    | inr (w, e) ↦ rw (e, available) (bounded r.remaining w inst v)
  ]

  open_decision-Within : Within r.remaining (open_decision model inst t r)
  unfolding open_decision
  open_decision-Within = elim (Bool-cases (still_marketable r.order.side r.order.price t.open_px)) [
    | inl e ↦ rw e (taker_fill-Within r.remaining (available model inst t r) _ available-IsPart)
    | inr e ↦ rw e nothing
  ]

  stop_decision-Within :
      (trigger : Price) → Within r.remaining (stop_decision model inst t r trigger)
  unfolding stop_decision
  stop_decision-Within trigger =
      taker_fill-Within r.remaining (available model inst t r) _ available-IsPart

  remainder_decision-Within : Within r.remaining (remainder_decision model inst t r)
  unfolding remainder_decision
  remainder_decision-Within = elim (Option-cases t.volume) [
    | inl e ↦ rw (e, remainder_decision) nothing
    | inr (w, e) ↦
        rw (e, remainder_decision)
          (taker_fill-Within r.remaining _ _ (bounded r.remaining w inst v))
  ]

  behind_queue-IsPart :
      (share queue : Quantity)
      → IsValid share
      → IsPart share (behind_queue model inst t share queue).0
  unfolding behind_queue
  behind_queue-IsPart share queue w = less-IsPart share _ w (or_zero_nonneg _ share.precision)

  passive_decision-Within :
      (limit : Price) → Within r.remaining (passive_decision model inst t r limit)
  unfolding passive_decision
  passive_decision-Within limit = elim (Option-cases t.volume) [
    | inl e ↦
        rw (e, passive_decision)
          (Within_if r.remaining _ _ _ (part _ (IsPart-self r.remaining v)) nothing)
    | inr (w, e) ↦
        let share = bounded r.remaining w inst v in
        rw (e, passive_decision)
          (elim (Bool-cases (through model inst t r.order.side limit)) [
            | inl h ↦ rw h (part _ share)
            | inr h ↦
                rw h (
                  part _ (IsPart-trans r.remaining _ _ share (behind_queue-IsPart _ _ share.valid)))
          ])
  ]

  limit_decision-Within : (limit : Price) → Within r.remaining (limit_decision model inst t r limit)
  unfolding limit_decision
  limit_decision-Within limit = Within_if r.remaining _ _ _ (passive_decision-Within limit) nothing

  at_trigger-Fits : (trigger : Price) → Fits r.remaining (at_trigger model inst t r trigger)
  unfolding at_trigger
  at_trigger-Fits trigger =
      let fill : Fits r.remaining
          (record idle { decision = stop_decision model inst t r trigger }) =
        record { fits = stop_decision-Within trigger } in
      let hit = triggered model inst t r.order.side trigger in
      let none_here = λ (o : Outcome) (e : o.decision ≡ none). idle-Fits r.remaining o e in
      elim (Bool-cases (hit && is_market_stop r.order.order_type)) [
        | inl e ↦ rw e fill
        | inr e ↦ rw e (elim (Bool-cases (hit && is_stop_limit r.order.order_type)) [
          | inl f ↦ rw f (none_here _ refl)
          | inr f ↦ rw f (elim (Bool-cases (not hit && is_trailing r.order.order_type)) [
            | inl g ↦ rw g (none_here _ refl)
            | inr g ↦ rw g (none_here _ refl)
          ])
        ])
      ]

  stop_outcome-Fits : Fits r.remaining (stop_outcome model inst t r)
  unfolding stop_outcome
  stop_outcome-Fits = elim (Option-cases r.order.trigger) [
    | inl e ↦
        rw (e, stop_outcome)
          (Fits-if r.remaining _ _ _ (idle-Fits r.remaining idle refl)
            (idle-Fits r.remaining idle refl))
    | inr (trigger, e) ↦
        rw (e, stop_outcome)
          (Fits-if r.remaining _ _ _ (idle-Fits r.remaining idle refl) (at_trigger-Fits trigger))
  ]

  rest_decision-Within : (o : Option Price) → Within r.remaining (rest_decision model inst t r o)
  rest_decision-Within none = remainder_decision-Within
  rest_decision-Within (some limit) = limit_decision-Within limit

  decide-Fits : (id : InstrumentId) → Fits r.remaining (decide model inst t id r)
  unfolding decide
  decide-Fits id =
      let opened : Fits r.remaining
          (record idle { clear_pending = true; decision = open_decision model inst t r }) =
        record { fits = open_decision-Within } in
      let rested : Fits r.remaining
          (record idle { decision = rest_decision model inst t r r.order.price }) =
        record { fits = rest_decision-Within r.order.price } in
      elim (Bool-cases (r.order.instrument_id == id)) [
        | inl e ↦
            rw e (
              Fits-if r.remaining _ _ _ opened (Fits-if r.remaining _ _ _ stop_outcome-Fits rested))
        | inr e ↦ rw e (idle-Fits r.remaining idle refl)
      ]

  -- Whatever is decided, the fill is a part of what remains.
  pub decide-Within : (id : InstrumentId) → Within r.remaining (decide model inst t id r).decision
  decide-Within id = (decide-Fits id).fits
