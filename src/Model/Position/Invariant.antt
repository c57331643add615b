-- ===== src/Model/Position/Invariant.antt =====
-- foundation/crates/coinext-model/src/position.rs: what every fill and funding charge keeps.
use coinext.Prelude.{◌≡◌, refl, ap, ◌∙◌, arith, ℕ, ◌≤◌, Bool-cases, inl, inr, ◌⊎◌}
use coinext.Core.Error.{ModelError, ok, err, Result-cases}
use coinext.Core.Decimal.{Decimals}
use coinext.Core.Price
use coinext.Core.Price.{max_precision}
use coinext.Core.Price.RoundTrip as PriceTrip
use coinext.Core.Quantity
use coinext.Core.Quantity.RoundTrip as QuantityTrip
use coinext.Core.Currency.{Currency, currency_eq}
use coinext.Core.Money
use coinext.Core.Money.Sums.{checked_add_iff}
use coinext.Model.Enums.{PositionSide, long, short, flat}
use coinext.Model.Fill.{Fill}
use coinext.Model.Instrument.{Instrument, settlement_currency}
use coinext.Model.Position.{
  Position, apply_fill, book, resize, side_of, open_price, signed, signed_fill, less_fee, fold_fill,
}

-- The size and the price are values that `from_raw` builds, at the precisions of the position.
pub record IsValid (p : Position) : Type 0 where
  pub quantity_valid : QuantityTrip.IsValid p.quantity
  pub quantity_precision : p.quantity.precision ≡ p.size_precision
  pub price_valid : PriceTrip.IsValid p.avg_px_open
  pub price_precision : p.avg_px_open.precision ≡ p.price_precision

module _ ⦃d : Decimals⦄ where
  pub book-keeps :
      (p : Position) (a : d.Decimal) (settle : Currency) {q : Position}
      → book p a settle ≡ ok q
      → (m : Money.Money) × (m.currency ≡ p.realized_pnl.currency)
        × (q ≡ record p { realized_pnl = m })
  unfolding book
  book-keeps p a settle e = elim (Bool-cases (d.is_zero a)) [
    | inl z ↦ (p.realized_pnl, refl, ground (arith, z, e))
    | inr z ↦ elim (Result-cases (Money.from_decimal a settle)) [
      | inr (x, g) ↦ absurd (ground (arith, z, e, g))
      | inl (add, g) ↦ elim (Result-cases (Money.checked_add p.realized_pnl add)) [
        | inr (x, h) ↦ absurd (ground (arith, z, e, g, h))
        | inl (sum, h) ↦
            let iff = (checked_add_iff p.realized_pnl add sum).0 h in
            (sum, ap (λ m. m.currency) iff.2, ground (arith, z, e, g, h))
      ]
    ]
  ]

  open_price-IsValid :
      (s : PositionSide) (avg : d.Decimal) (n : ℕ) {px : Price.Price}
      → n ≤ max_precision
      → open_price s avg n ≡ ok px
      → PriceTrip.IsValid px × (px.precision ≡ n)
  unfolding Price.zero
  open_price-IsValid flat avg n h e = ground arith
  open_price-IsValid long avg n h e = PriceTrip.from_decimal-IsValid avg n e
  open_price-IsValid short avg n h e = PriceTrip.from_decimal-IsValid avg n e

  -- What a change of a position keeps beside its validity.
  abbrev pub Kept : Position → Position → Type 0
  Kept p q =
      (q.instrument_id ≡ p.instrument_id)
      × (q.realized_pnl.currency ≡ p.realized_pnl.currency)
      × (q.size_precision ≡ p.size_precision)
      × (q.price_precision ≡ p.price_precision)

  abbrev pub Sound : Position → Position → Type 0
  Sound p q = IsValid q × Kept p q

  -- The three ends of a change of size, each with what it writes.
  pub resize-cases :
      (p : Position) (a avg : d.Decimal)
      → ((e : ModelError) × (resize p a avg ≡ (record p { side = side_of a }, err e)))
        ⊎ ((qty : Quantity.Quantity) × (Quantity.from_decimal (d.abs a) p.size_precision ≡ ok qty)
            × (((e : ModelError) × (resize p a avg
                    ≡ (record p { side = side_of a; quantity = qty }, err e)))
                ⊎ ((px : Price.Price) × (open_price (side_of a) avg p.price_precision ≡ ok px)
                    × (resize p a avg ≡ (
                      record p { side = side_of a; quantity = qty; avg_px_open = px },
                      ok tt,
                    )))))
  unfolding resize
  resize-cases p a avg = elim (Result-cases (Quantity.from_decimal (d.abs a) p.size_precision)) [
    | inr (x, g) ↦ inl (x, ground (arith, g))
    | inl (qty, g) ↦ inr (
      qty,
      g,
      elim (Result-cases (open_price (side_of a) avg p.price_precision)) [
        | inr (x, h) ↦ inl (x, ground (arith, g, h))
        | inl (px, h) ↦ inr (px, h, ground (arith, g, h))
      ],
    )
  ]

  resize-IsValid : (p : Position) (a avg : d.Decimal) → IsValid p → Sound p (resize p a avg).0
  resize-IsValid p a avg v = elim (resize-cases p a avg) [
    | inl (x, r) ↦ ground (arith, r, v)
    | inr (qty, g, inl (x, r)) ↦
        let size = QuantityTrip.from_decimal-IsValid (d.abs a) p.size_precision g in
        ground (arith, r, v, size)
    | inr (qty, g, inr (px, h, r)) ↦
        let size = QuantityTrip.from_decimal-IsValid (d.abs a) p.size_precision g in
        let price =
          open_price-IsValid (side_of a) avg p.price_precision
            (omega (arith, v.price_valid.supported, v.price_precision)) h in
        ground (arith, r, v, size, price)
  ]

  Kept-trans : (p q r : Position) → Kept p q → Kept q r → Kept p r
  Kept-trans p q r h k = (k.0 ∙ h.0, k.1 ∙ h.1, k.2 ∙ h.2, k.3 ∙ h.3)

  book-Sound :
      (p : Position) (a : d.Decimal) (settle : Currency) {q : Position}
      → IsValid p
      → book p a settle ≡ ok q
      → Sound p q
  book-Sound p a settle v g = ground (arith, book-keeps p a settle g)

  -- A fill keeps a valid position valid, with the instrument, the precisions and the currency of its
  -- realized PnL, on every path of the code, those that return an error included.
  pub apply_fill-IsValid :
      (p : Position) (f : Fill) (inst : Instrument) → IsValid p → Sound p (apply_fill p f inst).0
  unfolding apply_fill
  apply_fill-IsValid p f inst v =
      let settle = settlement_currency inst in
      let size = d.add (signed p) (signed_fill f.side (Quantity.as_decimal f.last_qty)) in
      let pnl = less_fee (fold_fill p f inst).0 f inst in
      elim (Result-cases (book p pnl settle)) [
        | inr (x, g) ↦ ground (arith, g, v)
        | inl (q, g) ↦
            let booked = book-Sound p pnl settle v g in
            let sized = resize-IsValid q size (fold_fill p f inst).1 booked.0 in
            let both = Kept-trans p q (resize q size (fold_fill p f inst).1).0 booked.1 sized.1 in
            ground (arith, g, sized, both)
      ]
