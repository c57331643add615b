-- ===== src/Model/Position.antt =====
-- foundation/crates/coinext-model/src/position.rs: the net position that fills are folded into.
-- `apply_fill` writes the realized PnL before it computes the new size, so a late error leaves the
-- position with the PnL booked: it returns the position beside its result.
pub mod Invariant
pub mod Effects
pub mod Booking
use Prim.Native.Nat.{Ordering}
use coinext.Prelude.{ℕ, Bool, true, false, not, Option, none, some, if◌then◌else◌, nat_beq}
use coinext.Prelude.Int.{ℤ}
use coinext.Prelude.Maps.{◌==◌}
use coinext.Core.Error.{ModelError, Result, ok, err, ◌>>=◌, unwrap_or}
use coinext.Core.Decimal.{Decimals, lt, min}
use coinext.Core.Price
use coinext.Core.Price.{Price}
use coinext.Core.Quantity
use coinext.Core.Quantity.{Quantity}
use coinext.Core.Currency.{Currency, currency_eq}
use coinext.Core.Money
use coinext.Core.Money.{Money}
use coinext.Model.Enums.{OrderSide, buy, sell, PositionSide, long, short, flat}
use coinext.Model.Ids.{InstrumentId, PositionId}
use coinext.Model.Fill.{Fill}
use coinext.Model.Instrument.{Instrument, settlement_currency, multiplier, is_inverse}

pub record Position : Type 0 where
  pub position_id : PositionId
  pub instrument_id : InstrumentId
  pub side : PositionSide
  pub quantity : Quantity
  pub avg_px_open : Price
  pub realized_pnl : Money
  pub size_precision : ℕ
  pub price_precision : ℕ

-- `Position::flat`
unfoldable pub flat_at : PositionId → InstrumentId → ℕ → ℕ → Currency → Position
flat_at position_id instrument_id price_precision size_precision settlement = record {
  position_id = position_id;
  instrument_id = instrument_id;
  side = flat;
  quantity = Quantity.zero size_precision;
  avg_px_open = Price.zero price_precision;
  realized_pnl = Money.zero settlement;
  size_precision = size_precision;
  price_precision = price_precision;
}

abbrev pub is_flat : PositionSide → Bool
is_flat flat = true
is_flat _ = false

abbrev pub is_long : PositionSide → Bool
is_long long = true
is_long _ = false

module _ ⦃d : Decimals⦄ where
  -- `a > Decimal::ZERO`
  abbrev pub is_pos : d.Decimal → Bool
  is_pos a = lt d.zero a

  abbrev pub signed_of : PositionSide → Quantity → d.Decimal
  signed_of long q = Quantity.as_decimal q
  signed_of short q = d.neg (Quantity.as_decimal q)
  signed_of flat q = d.zero

  unfoldable pub signed : Position → d.Decimal
  signed p = signed_of p.side p.quantity

  unfoldable pub pnl_per_qty : Bool → d.Decimal → d.Decimal → d.Decimal → d.Decimal
  pnl_per_qty inverse entry exit mult =
      if d.is_zero entry
      then d.zero
      else if inverse
      then d.mul mult (d.sub (d.div d.one entry) (d.div d.one exit))
      else d.mul mult (d.sub exit entry)

  -- `Decimal::from(side.sign()) * qty`
  unfoldable pub signed_fill : OrderSide → d.Decimal → d.Decimal
  signed_fill buy qty = d.mul d.one qty
  signed_fill sell qty = d.mul (d.neg d.one) qty

  abbrev same_bool : Bool → Bool → Bool
  same_bool true b = b
  same_bool false b = not b

  abbrev direction : d.Decimal → d.Decimal
  direction cur = if is_pos cur then d.one else d.neg d.one

  -- The PnL realized on the reduced part, and the new average price.
  unfoldable pub fold_fill : Position → Fill → Instrument → d.Decimal × d.Decimal
  fold_fill p f inst =
      let mult = Quantity.as_decimal (multiplier inst) in
      let fill_px = Price.as_decimal f.last_px in
      let fill_qty = Quantity.as_decimal f.last_qty in
      let cur = signed p in
      let avg_open = Price.as_decimal p.avg_px_open in
      let denom = d.add (d.abs cur) fill_qty in
      let reduce = min (d.abs cur) fill_qty in
      if d.is_zero cur
      then (d.zero, fill_px)
      else if same_bool (is_pos cur) (is_pos (signed_fill f.side fill_qty))
      then (
        d.zero,
        if d.is_zero denom
            then fill_px
            else d.div (d.add (d.mul avg_open (d.abs cur)) (d.mul fill_px fill_qty)) denom,
      )
      else (
        d.add d.zero (
            d.mul (d.mul (direction cur) reduce)
              (pnl_per_qty (is_inverse inst) avg_open fill_px mult)),
        if lt (d.abs cur) fill_qty then fill_px else avg_open,
      )

  unfoldable pub less_fee : d.Decimal → Fill → Instrument → d.Decimal
  less_fee realized f inst =
      if f.fee.currency == settlement_currency inst
      then d.sub realized (Money.amount f.fee)
      else realized

  -- `self.realized_pnl += realized`, if it is not zero.
  unfoldable pub book : Position → d.Decimal → Currency → Result Position
  book p realized settle = if d.is_zero realized then ok p else do
    add ← Money.from_decimal realized settle
    sum ← Money.checked_add p.realized_pnl add
    ok (record p { realized_pnl = sum })

  unfoldable pub side_of : d.Decimal → PositionSide
  side_of a = if d.is_zero a then flat else if is_pos a then long else short

  abbrev open_price : PositionSide → d.Decimal → ℕ → Result Price
  open_price flat avg precision = ok (Price.zero precision)
  open_price _ avg precision = Price.from_decimal avg precision

  -- The side, the quantity and the average, each written in turn.
  unfoldable pub resize : Position → d.Decimal → d.Decimal → Position × Result (Unit {0})
  unfolding side_of
  resize p new_signed new_avg =
      let q = record p { side = side_of new_signed } in
      elim (Quantity.from_decimal (d.abs new_signed) p.size_precision) [
        | err e ↦ (q, err e)
        | ok quantity ↦ elim (open_price (side_of new_signed) new_avg p.price_precision) [
          | err e ↦ (record q { quantity = quantity }, err e)
          | ok px ↦ (record q { quantity = quantity; avg_px_open = px }, ok tt)
        ]
      ]

  unfoldable pub apply_fill : Position → Fill → Instrument → Position × Result (Unit {0})
  unfolding fold_fill less_fee book resize
  apply_fill p f inst =
      let (realized, new_avg) = fold_fill p f inst in
      let new_signed = d.add (signed p) (signed_fill f.side (Quantity.as_decimal f.last_qty)) in
      elim (book p (less_fee realized f inst) (settlement_currency inst)) [
        | err e ↦ (p, err e)
        | ok q ↦ resize q new_signed new_avg
      ]

  abbrev funding_notional : Position → d.Decimal → d.Decimal → Bool → d.Decimal
  funding_notional p mark mult inverse =
      if inverse
      then (if d.is_zero mark then d.zero else d.div (d.mul (signed p) mult) mark)
      else d.mul (d.mul (signed p) mark) mult

  unfoldable pub apply_funding : Position → d.Decimal → Price → Instrument → Result Position
  apply_funding p rate mark inst = if is_flat p.side then ok p else do
    let mult = Quantity.as_decimal (multiplier inst)
    let notional = funding_notional p (Price.as_decimal mark) mult (is_inverse inst)
    m ← Money.from_decimal (d.neg (d.mul notional rate)) (settlement_currency inst)
    sum ← Money.checked_add p.realized_pnl m
    ok (record p { realized_pnl = sum })

  unfoldable pub unrealized_pnl : Position → Price → Instrument → Money
  unrealized_pnl p mark inst =
      let settle = settlement_currency inst in
      let mult = Quantity.as_decimal (multiplier inst) in
      let dir = if is_long p.side then d.one else d.neg d.one in
      let per =
        pnl_per_qty (is_inverse inst) (Price.as_decimal p.avg_px_open) (Price.as_decimal mark)
          mult in
      let pnl = d.mul (d.mul dir (Quantity.as_decimal p.quantity)) per in
      if is_flat p.side
      then Money.zero settle
      else unwrap_or (Money.from_decimal pnl settle) (Money.zero settle)

  unfoldable pub notional : Position → Price → Instrument → Money
  notional p mark inst =
      let settle = settlement_currency inst in
      let mult = Quantity.as_decimal (multiplier inst) in
      let qty = Quantity.as_decimal p.quantity in
      let px = Price.as_decimal mark in
      let value =
        if is_inverse inst
        then (if d.is_zero px then d.zero else d.div (d.mul qty mult) px)
        else d.mul (d.mul qty px) mult in
      unwrap_or (Money.from_decimal value settle) (Money.zero settle)
