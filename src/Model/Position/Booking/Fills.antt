-- ===== src/Model/Position/Booking/Fills.antt =====
-- foundation/crates/coinext-model/src/position.rs: what a fill that succeeds does to a position.
use coinext.Prelude.{ℕ, ◌≡◌, ◌≢◌, refl, subst, ap, ◌∙◌, true, false, arith, inl, inr, Bool-cases}
use coinext.Core.Error.{ok}
use coinext.Core.Decimal.{Decimals, lt}
use coinext.Core.Price
use coinext.Core.Quantity
use coinext.Core.Quantity.{Quantity}
use coinext.Model.Enums.{OrderSide, buy, sell, PositionSide, long, short, flat}
use coinext.Model.Fill.{Fill}
use coinext.Model.Instrument.{Instrument, settlement_currency}
use coinext.Model.Position.{
  Position, apply_fill, side_of, signed, signed_fill, less_fee, fold_fill, open_price,
}
use coinext.Model.Position.Invariant.{resize-cases}
use coinext.Model.Position.Effects.{new_size, apply_fill-book}
use coinext.Model.Position.Booking.{
  IsPositive, Signs, held, Books, Charged, Added, less_fee-Charged, book-Added,
}
use coinext.Model.Position.Booking.Folds.{IsHeld, fold_fill-Books}

module _ ⦃d : Decimals⦄ where
  -- The signed size that a fill adds.
  abbrev pub change : OrderSide → d.Decimal → d.Decimal
  change buy qty = d.mul d.one qty
  change sell qty = d.mul (d.neg d.one) qty

  -- The side of a signed size, and the price that a side keeps.
  pub data Sided (a : d.Decimal) : PositionSide → Type 0 where
    level : d.is_zero a ≡ true → Sided a flat
    up : d.is_zero a ≡ false → lt d.zero a ≡ true → Sided a long
    down : d.is_zero a ≡ false → lt d.zero a ≡ false → Sided a short

  pub data Quoted (avg : d.Decimal) (precision : ℕ) : PositionSide → Price.Price → Type 0 where
    at_zero : Quoted avg precision flat (Price.zero precision)
    at_average :
        (s : PositionSide) (px : Price.Price)
        → s ≢ flat
        → Price.from_decimal avg precision ≡ ok px
        → Quoted avg precision s px

  pub record Folded (p q : Position) (f : Fill) (inst : Instrument) : Type 0 where
    pub pnl : d.Decimal
    pub avg : d.Decimal
    pub charge : d.Decimal
    pub size : d.Decimal
    pub sum :
        size
        ≡ d.add
            (held p.side (Quantity.as_decimal p.quantity))
            (change f.side (Quantity.as_decimal f.last_qty))
    pub books : Books p f inst pnl avg
    pub charged : Charged p f inst pnl charge
    pub booked : Added charge (settlement_currency inst) p.realized_pnl q.realized_pnl
    pub sided : Sided size q.side
    pub sized : Quantity.from_decimal (d.abs size) p.size_precision ≡ ok q.quantity
    pub quoted : Quoted avg p.price_precision q.side q.avg_px_open

  signed-held :
      (p : Position) (s : PositionSide)
      → p.side ≡ s
      → signed p ≡ held p.side (Quantity.as_decimal p.quantity)
  unfolding signed
  signed-held p long e = rw e refl
  signed-held p short e = rw e refl
  signed-held p flat e = rw e refl

  signed_fill-change : (t : OrderSide) (a : d.Decimal) → signed_fill t a ≡ change t a
  unfolding signed_fill
  signed_fill-change buy a = refl
  signed_fill-change sell a = refl

  side_of-Sided : (a : d.Decimal) → Sided a (side_of a)
  unfolding side_of
  side_of-Sided a = elim (Bool-cases (d.is_zero a)) [
    | inl z ↦ rw z (level z)
    | inr z ↦ elim (Bool-cases (lt d.zero a)) [
      | inl u ↦ rw (z, u) (up z u)
      | inr u ↦ rw (z, u) (down z u)
    ]
  ]

  open_price-Quoted :
      (s : PositionSide) (avg : d.Decimal) (n : ℕ) (px : Price.Price)
      → open_price s avg n ≡ ok px
      → Quoted avg n s px
  open_price-Quoted flat avg n px e = subst (Quoted avg n flat) (ground (arith, e)) at_zero
  open_price-Quoted long avg n px e = at_average long px (λ h. ground (arith, h)) e
  open_price-Quoted short avg n px e = at_average short px (λ h. ground (arith, h)) e

  Quoted-subst :
      {avg : d.Decimal} {m n : ℕ} {s t : PositionSide} {px py : Price.Price}
      → m ≡ n
      → s ≡ t
      → px ≡ py
      → Quoted avg m s px
      → Quoted avg n t py
  Quoted-subst {avg} {m} {n} {s} {t} {px} {py} a b c q =
      subst (λ k. Quoted avg k t py) a
        (subst (λ u. Quoted avg m u py) b (subst (Quoted avg m s) c q))

  module _ (laws : Signs) (p : Position) (f : Fill) (inst : Instrument) where
    -- For decimals whose signs are as documented, a fill of a size above zero that a position of a size
    -- above zero, or a flat one, takes without error: its profit and average price are those of opening,
    -- adding, reducing or turning, by the two sides and sizes, where a long position earns the exit less
    -- the entry and a short one the opposite; the profit, less the fee if that is in the currency of
    -- settlement, is added to the realized one; the size is the quantized sum, the side is its sign, and
    -- a flat position has the average price zero.
    pub apply_fill-Folded :
        (q : Position)
        → IsHeld p
        → IsPositive f.last_qty
        → apply_fill p f inst ≡ (q, ok tt)
        → Folded p q f inst
    apply_fill-Folded q h w e = elim (apply_fill-book p f inst) [
      | inl (x, g) ↦ absurd (ground (arith, g, e))
      | inr (r, g, eq, (m, kept)) ↦ elim (resize-cases r (new_size p f) (fold_fill p f inst).1) [
        | inl (x, c) ↦ absurd (ground (arith, c, eq, e))
        | inr (qty, k, inl (x, c)) ↦ absurd (ground (arith, c, eq, e))
        | inr (qty, k, inr (px, o, c)) ↦ record {
          pnl = (fold_fill p f inst).0;
          avg = (fold_fill p f inst).1;
          charge = less_fee (fold_fill p f inst).0 f inst;
          size = new_size p f;
          sum =
              ap (λ a. d.add a (signed_fill f.side (Quantity.as_decimal f.last_qty)))
                (signed-held p p.side refl)
              ∙ ap (d.add (held p.side (Quantity.as_decimal p.quantity)))
                  (signed_fill-change f.side (Quantity.as_decimal f.last_qty));
          books = fold_fill-Books laws p f inst h w;
          charged = less_fee-Charged p f inst (fold_fill p f inst).0;
          booked =
              subst (Added _ _ p.realized_pnl) (ground (arith, c, eq, e)) (book-Added p _ _ r g);
          sided =
              subst (Sided (new_size p f)) (ground (arith, c, eq, e))
                (side_of-Sided (new_size p f));
          sized = ground (arith, c, eq, e, k, kept);
          quoted =
              Quoted-subst (ground (arith, kept)) (ground (arith, c, eq, e))
                (ground (arith, c, eq, e))
                (open_price-Quoted (side_of (new_size p f)) (fold_fill p f inst).1 r.price_precision
                  px o);
        }
      ]
    ]
