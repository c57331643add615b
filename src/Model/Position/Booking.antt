-- ===== src/Model/Position/Booking.antt =====
-- foundation/crates/coinext-model/src/position.rs: the profit and the average price of a fill, by the sides of
-- the position and of the fill.
pub mod Folds
pub mod Fills
use coinext.Prelude.{
  ℕ, zero, suc, ◌+◌, ◌≤◌, ◌<◌, ◌^◌, ◌≡◌, ◌≢◌, ◌⊎◌, refl, sym, subst, Bool, true, false, arith, inl,
  inr, Bool-cases,
}
use coinext.Prelude.Int.{ℤ, pos, negsuc, pos_part, ◌<ℤ◌}
use coinext.Prelude.Maps.{◌==◌}
use coinext.Core.Error.{ModelError, Result, ok, err, Result-cases}
use coinext.Core.Decimal.{Decimals, lt, min}
use coinext.Core.Price
use coinext.Core.Quantity
use coinext.Core.Quantity.{Quantity}
use coinext.Core.Currency.{Currency, currency_eq, currency_beq_iff}
use coinext.Core.Money
use coinext.Core.Money.{Money}
use coinext.Model.Enums.{OrderSide, buy, sell, PositionSide, long, short, flat}
use coinext.Model.Fill.{Fill}
use coinext.Model.Instrument.{Instrument, settlement_currency, multiplier, is_inverse}
use coinext.Model.Position.{
  Position, apply_fill, book, resize, side_of, signed, signed_fill, less_fee, fold_fill, open_price,
  pnl_per_qty,
}
use coinext.Model.Position.Invariant.{resize-cases}
use coinext.Model.Position.Effects.{new_size, new_pnl, apply_fill-book}

-- A size that is above zero, an i64, and of at most 18 places.
pub record IsPositive (q : Quantity) : Type 0 where
  pub above : pos 0 <ℤ q.raw
  pub fits_i64 : pos_part q.raw < 2 ^ 63
  pub supported : q.precision ≤ 18

-- A fill in the direction of the position, and one against it.
pub data Joins : PositionSide → OrderSide → Type 0 where
  buys_long : Joins long buy
  sells_short : Joins short sell

pub data Opposes : PositionSide → OrderSide → Type 0 where
  sells_long : Opposes long sell
  buys_short : Opposes short buy

-- The documented behaviour of signs: of a decimal with a mantissa above zero, its opposite, its products
-- with one and minus one, and sums of two such decimals.
pub record Signs ⦃d : Decimals⦄ : Type 0 where
  pub zero_is_zero : d.is_zero d.zero ≡ true
  pub signs :
      (n s : ℕ)
      → suc n < 2 ^ 63
      → s ≤ 18
      → (d.is_zero (d.with_scale (pos (suc n)) s) ≡ false)
        × (lt d.zero (d.with_scale (pos (suc n)) s) ≡ true)
        × (d.is_zero (d.neg (d.with_scale (pos (suc n)) s)) ≡ false)
        × (lt d.zero (d.neg (d.with_scale (pos (suc n)) s)) ≡ false)
        × (lt d.zero (d.mul d.one (d.with_scale (pos (suc n)) s)) ≡ true)
        × (lt d.zero (d.mul (d.neg d.one) (d.with_scale (pos (suc n)) s)) ≡ false)
  pub sums :
      (n s m t : ℕ)
      → suc n < 2 ^ 63
      → s ≤ 18
      → suc m < 2 ^ 63
      → t ≤ 18
      → (d.is_zero (d.add (d.abs (d.with_scale (pos (suc n)) s)) (d.with_scale (pos (suc m)) t))
          ≡ false)
        × (d.is_zero
              (d.add (d.abs (d.neg (d.with_scale (pos (suc n)) s))) (d.with_scale (pos (suc m)) t))
            ≡ false)

module _ ⦃d : Decimals⦄ where
  -- The profit of one unit from an entry to an exit.
  pub data Earned (inverse : Bool) (entry exit mult : d.Decimal) : d.Decimal → Type 0 where
    unpriced : d.is_zero entry ≡ true → Earned inverse entry exit mult d.zero
    linear :
        d.is_zero entry ≡ false
        → inverse ≡ false
        → Earned inverse entry exit mult (d.mul mult (d.sub exit entry))
    inverted :
        d.is_zero entry ≡ false
        → inverse ≡ true
        → Earned inverse entry exit mult (d.mul mult (d.sub (d.div d.one entry) (d.div d.one exit)))

  -- The signed size of a position and the sign of its side.
  abbrev pub held : PositionSide → d.Decimal → d.Decimal
  held long size = size
  held short size = d.neg size
  held flat size = d.zero

  abbrev pub sign : PositionSide → d.Decimal
  sign long = d.one
  sign short = d.neg d.one
  sign flat = d.zero

  module _ (p : Position) (f : Fill) (inst : Instrument) where
    abbrev held_size : d.Decimal
    held_size = d.abs (held p.side (Quantity.as_decimal p.quantity))

    abbrev fill_qty : d.Decimal
    fill_qty = Quantity.as_decimal f.last_qty

    abbrev fill_px : d.Decimal
    fill_px = Price.as_decimal f.last_px

    abbrev entry_px : d.Decimal
    entry_px = Price.as_decimal p.avg_px_open

    -- The profit before the fee and the average price after a fill.
    pub data Books : d.Decimal → d.Decimal → Type 0 where
      opens : p.side ≡ flat → Books d.zero fill_px
      adds :
          Joins p.side f.side
          → Books d.zero (
              d.div
                (d.add (d.mul entry_px held_size) (d.mul fill_px fill_qty))
                (d.add held_size fill_qty))
      closes :
          (e : d.Decimal)
          → Opposes p.side f.side
          → lt held_size fill_qty ≡ false
          → Earned (is_inverse inst) entry_px fill_px (Quantity.as_decimal (multiplier inst)) e
          → Books (d.add d.zero (d.mul (d.mul (sign p.side) (min held_size fill_qty)) e)) entry_px
      turns :
          (e : d.Decimal)
          → Opposes p.side f.side
          → lt held_size fill_qty ≡ true
          → Earned (is_inverse inst) entry_px fill_px (Quantity.as_decimal (multiplier inst)) e
          → Books (d.add d.zero (d.mul (d.mul (sign p.side) (min held_size fill_qty)) e)) fill_px

    -- The fee is taken off in the currency of the settlement.
    pub data Charged (pnl : d.Decimal) : d.Decimal → Type 0 where
      same_currency :
          f.fee.currency ≡ settlement_currency inst → Charged pnl (d.sub pnl (Money.amount f.fee))
      other_currency : f.fee.currency ≢ settlement_currency inst → Charged pnl pnl

  pub data Added (a : d.Decimal) (settle : Currency) (m : Money) : Money → Type 0 where
    unchanged : d.is_zero a ≡ true → Added a settle m m
    added :
        (n sum : Money)
        → d.is_zero a ≡ false
        → Money.from_decimal a settle ≡ ok n
        → Money.checked_add m n ≡ ok sum
        → Added a settle m sum

  pnl_per_qty-Earned :
      (inverse : Bool) (entry exit mult : d.Decimal)
      → Earned inverse entry exit mult (pnl_per_qty inverse entry exit mult)
  unfolding pnl_per_qty
  pnl_per_qty-Earned true entry exit mult = elim (Bool-cases (d.is_zero entry)) [
    | inl z ↦ rw z (unpriced z)
    | inr z ↦ rw z (inverted z refl)
  ]
  pnl_per_qty-Earned false entry exit mult = elim (Bool-cases (d.is_zero entry)) [
    | inl z ↦ rw z (unpriced z)
    | inr z ↦ rw z (linear z refl)
  ]

  less_fee-Charged :
      (p : Position) (f : Fill) (inst : Instrument) (pnl : d.Decimal)
      → Charged p f inst pnl (less_fee pnl f inst)
  unfolding less_fee
  less_fee-Charged p f inst pnl = elim (Bool-cases (f.fee.currency == settlement_currency inst)) [
    | inl s ↦
        rw s (same_currency ((currency_beq_iff f.fee.currency (settlement_currency inst)).0 s))
    | inr s ↦ rw s (
        other_currency (λ q.
          ground (arith, s, (currency_beq_iff f.fee.currency (settlement_currency inst)).1 q)))
  ]

  book-Added :
      (p : Position) (a : d.Decimal) (settle : Currency) (r : Position)
      → book p a settle ≡ ok r
      → Added a settle p.realized_pnl r.realized_pnl
  unfolding book
  book-Added p a settle r e = elim (Bool-cases (d.is_zero a)) [
    | inl z ↦ subst (λ m. Added a settle p.realized_pnl m) (ground (arith, z, e)) (unchanged z)
    | inr z ↦ elim (Result-cases (Money.from_decimal a settle)) [
      | inr (x, g) ↦ absurd (ground (arith, z, e, g))
      | inl (n, g) ↦ elim (Result-cases (Money.checked_add p.realized_pnl n)) [
        | inr (x, h) ↦ absurd (ground (arith, z, e, g, h))
        | inl (sum, h) ↦
            subst (λ m. Added a settle p.realized_pnl m) (ground (arith, z, e, g, h))
              (added n sum z g h)
      ]
    ]
  ]

  ℤ-cases : (z : ℤ) → ((n : ℕ) × (z ≡ pos (suc n))) ⊎ ¬ (pos 0 <ℤ z)
  ℤ-cases (pos (suc n)) = inl (n, refl)
  ℤ-cases (pos zero) = inr (λ h. ground (arith, h))
  ℤ-cases (negsuc n) = inr (λ h. ground (arith, h))

  positive_raw : (q : Quantity) → IsPositive q → (n : ℕ) × (q.raw ≡ pos (suc n)) × (suc n < 2 ^ 63)
  positive_raw q w = elim (ℤ-cases q.raw) [
    | inl (n, e) ↦ (n, e, ground (arith, e, w.fits_i64))
    | inr h ↦ absurd (h w.above)
  ]

  module _ (laws : Signs) where
    size_signs :
        (q : Quantity)
        → IsPositive q
        → (d.is_zero (Quantity.as_decimal q) ≡ false)
          × (lt d.zero (Quantity.as_decimal q) ≡ true)
          × (d.is_zero (d.neg (Quantity.as_decimal q)) ≡ false)
          × (lt d.zero (d.neg (Quantity.as_decimal q)) ≡ false)
          × (lt d.zero (d.mul d.one (Quantity.as_decimal q)) ≡ true)
          × (lt d.zero (d.mul (d.neg d.one) (Quantity.as_decimal q)) ≡ false)
    unfolding Quantity.as_decimal
    size_signs q w =
        let (n, e, h) = positive_raw q w in rw e (laws.signs n q.precision h w.supported)

    sum_signs :
        (q r : Quantity)
        → IsPositive q
        → IsPositive r
        → (d.is_zero (d.add (d.abs (Quantity.as_decimal q)) (Quantity.as_decimal r)) ≡ false)
          × (d.is_zero (d.add (d.abs (d.neg (Quantity.as_decimal q))) (Quantity.as_decimal r))
              ≡ false)
    unfolding Quantity.as_decimal
    sum_signs q r w v =
        let (n, e, h) = positive_raw q w in
        let (m, f, k) = positive_raw r v in
        rw (e, f) (laws.sums n q.precision m r.precision h w.supported k v.supported)
