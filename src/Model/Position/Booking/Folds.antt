-- ===== src/Model/Position/Booking/Folds.antt =====
-- foundation/crates/coinext-model/src/position.rs: the cases of `apply_fill`, by the sides and sizes.
use coinext.Prelude.{◌≡◌, ◌⊎◌, refl, sym, subst, Bool, true, false, inl, inr, if◌then◌else◌}
use coinext.Core.Decimal.{Decimals, lt, min}
use coinext.Core.Quantity
use coinext.Core.Quantity.{Quantity}
use coinext.Model.Enums.{OrderSide, buy, sell, PositionSide, long, short, flat}
use coinext.Model.Fill.{Fill}
use coinext.Model.Instrument.{Instrument, multiplier, is_inverse}
use coinext.Model.Position.{Position, signed, signed_fill, fold_fill, pnl_per_qty}
use coinext.Model.Position.Booking.{
  IsPositive, Joins, buys_long, sells_short, Opposes, sells_long, buys_short, Signs, sign,
  held_size, fill_qty, fill_px, entry_px, Books, opens, adds, closes, turns, pnl_per_qty-Earned,
  size_signs, sum_signs,
}

module _ ⦃d : Decimals⦄ where
  -- A position is flat, or holds a size above zero.
  pub data IsHeld (p : Position) : Type 0 where
    is_flat : p.side ≡ flat → IsHeld p
    is_long : p.side ≡ long → IsPositive p.quantity → IsHeld p
    is_short : p.side ≡ short → IsPositive p.quantity → IsHeld p

  module _ (laws : Signs) (p : Position) (f : Fill) (inst : Instrument) where
    turned :
        (b : Bool)
        → lt (held_size p f inst) (fill_qty p f inst) ≡ b
        → Opposes p.side f.side
        → Books p f inst
            (d.add d.zero (
              d.mul (d.mul (sign p.side) (min (held_size p f inst) (fill_qty p f inst))) (
                pnl_per_qty
                  (is_inverse inst)
                  (entry_px p f inst)
                  (fill_px p f inst)
                  (Quantity.as_decimal (multiplier inst)))))
            (if b then fill_px p f inst else entry_px p f inst)
    turned true e o = turns _ o e (pnl_per_qty-Earned _ _ _ _)
    turned false e o = closes _ o e (pnl_per_qty-Earned _ _ _ _)

    abbrev joined_avg : d.Decimal
    joined_avg =
        d.div
          (d.add (d.mul (entry_px p f inst) (held_size p f inst))
            (d.mul (fill_px p f inst) (fill_qty p f inst)))
          (d.add (held_size p f inst) (fill_qty p f inst))

    abbrev turned_pnl : d.Decimal
    turned_pnl = d.add d.zero (
        d.mul (d.mul (sign p.side) (min (held_size p f inst) (fill_qty p f inst))) (
          pnl_per_qty (is_inverse inst) (entry_px p f inst) (fill_px p f inst)
            (Quantity.as_decimal (multiplier inst))))

    abbrev turned_avg : d.Decimal
    turned_avg =
        if lt (held_size p f inst) (fill_qty p f inst) then fill_px p f inst else entry_px p f inst

    fold_flat : p.side ≡ flat → fold_fill p f inst ≡ (d.zero, fill_px p f inst)
    unfolding fold_fill signed
    fold_flat e = rw e (rw laws.zero_is_zero refl)

    fold_along :
        IsPositive p.quantity
        → IsPositive f.last_qty
        → (s : PositionSide) (t : OrderSide) → p.side ≡ s
        → f.side ≡ t
        → Joins s t
        → fold_fill p f inst ≡ (d.zero, joined_avg)
    unfolding fold_fill signed signed_fill
    fold_along v w _ _ e g buys_long =
        let a = size_signs laws p.quantity v in
        let b = size_signs laws f.last_qty w in
        rw (e, g) (rw (a.0, a.1, b.4, (sum_signs laws p.quantity f.last_qty v w).0) refl)
    fold_along v w _ _ e g sells_short =
        let a = size_signs laws p.quantity v in
        let b = size_signs laws f.last_qty w in
        rw (e, g) (rw (a.2, a.3, b.5, (sum_signs laws p.quantity f.last_qty v w).1) refl)

    fold_against :
        IsPositive p.quantity
        → IsPositive f.last_qty
        → (s : PositionSide) (t : OrderSide) → p.side ≡ s
        → f.side ≡ t
        → Opposes s t
        → fold_fill p f inst ≡ (turned_pnl, turned_avg)
    unfolding fold_fill signed signed_fill
    fold_against v w _ _ e g sells_long =
        let a = size_signs laws p.quantity v in
        let b = size_signs laws f.last_qty w in rw (e, g) (rw (a.0, a.1, b.5) refl)
    fold_against v w _ _ e g buys_short =
        let a = size_signs laws p.quantity v in
        let b = size_signs laws f.last_qty w in rw (e, g) (rw (a.2, a.3, b.4) refl)

    abbrev Booked : d.Decimal × d.Decimal → Type 0
    Booked r = Books p f inst r.0 r.1

    opposed :
        (s : PositionSide) (t : OrderSide)
        → IsPositive p.quantity
        → IsPositive f.last_qty
        → p.side ≡ s
        → f.side ≡ t
        → Opposes s t
        → Booked (fold_fill p f inst)
    opposed s t v w e g o = subst Booked (sym (fold_against v w s t e g o)) (
        turned (lt (held_size p f inst) (fill_qty p f inst)) refl
          (subst (λ u. Opposes u f.side) (sym e) (subst (Opposes s) (sym g) o)))

    joined :
        (s : PositionSide) (t : OrderSide)
        → IsPositive p.quantity
        → IsPositive f.last_qty
        → p.side ≡ s
        → f.side ≡ t
        → Joins s t
        → Booked (fold_fill p f inst)
    joined s t v w e g j =
        subst Booked (sym (fold_along v w s t e g j))
          (adds (subst (λ u. Joins u f.side) (sym e) (subst (Joins s) (sym g) j)))

    side_cases : (t : OrderSide) → (t ≡ buy) ⊎ (t ≡ sell)
    side_cases buy = inl refl
    side_cases sell = inr refl

    pub fold_fill-Books : IsHeld p → IsPositive f.last_qty → Booked (fold_fill p f inst)
    fold_fill-Books (is_flat e) w = subst Booked (sym (fold_flat e)) (opens e)
    fold_fill-Books (is_long e v) w = elim (side_cases f.side) [
      | inl g ↦ joined long buy v w e g buys_long
      | inr g ↦ opposed long sell v w e g sells_long
    ]
    fold_fill-Books (is_short e v) w = elim (side_cases f.side) [
      | inl g ↦ opposed short buy v w e g buys_short
      | inr g ↦ joined short sell v w e g sells_short
    ]
