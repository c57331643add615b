-- ===== src/Model/Position/Effects.antt =====
-- foundation/crates/coinext-model/src/position.rs: what a fill changes, where it succeeds and where it
-- fails half way.
use coinext.Prelude.{◌≡◌, arith, inl, inr, ◌⊎◌}
use coinext.Core.Error.{Result, ok, err, ModelError, Result-cases}
use coinext.Core.Decimal.{Decimals}
use coinext.Core.Quantity
use coinext.Core.Money
use coinext.Model.Fill.{Fill}
use coinext.Model.Instrument.{Instrument, settlement_currency}
use coinext.Model.Position.Invariant.{book-keeps, resize-cases}
use coinext.Model.Position.{
  Position, apply_fill, book, resize, side_of, signed, signed_fill, less_fee, fold_fill,
}

module _ ⦃d : Decimals⦄ where
  abbrev pub new_size : Position → Fill → d.Decimal
  new_size p f = d.add (signed p) (signed_fill f.side (Quantity.as_decimal f.last_qty))

  abbrev pub new_pnl : Position → Fill → Instrument → Result Position
  new_pnl p f inst = book p (less_fee (fold_fill p f inst).0 f inst) (settlement_currency inst)

  abbrev new_avg : Position → Fill → Instrument → d.Decimal
  new_avg p f inst = (fold_fill p f inst).1

  pub apply_fill-book :
      (p : Position) (f : Fill) (inst : Instrument)
      → ((x : ModelError) × (apply_fill p f inst ≡ (p, err x)))
        ⊎ ((r : Position) × (new_pnl p f inst ≡ ok r)
            × (apply_fill p f inst ≡ resize r (new_size p f) (new_avg p f inst))
            × ((m : Money.Money) × (r ≡ record p { realized_pnl = m })))
  unfolding apply_fill
  apply_fill-book p f inst = elim (Result-cases (new_pnl p f inst)) [
    | inr (x, g) ↦ inl (x, ground (arith, g))
    | inl (r, g) ↦
        let kept =
          book-keeps p (less_fee (fold_fill p f inst).0 f inst) (settlement_currency inst) g in
        inr (r, g, ground (arith, g), (kept.0, kept.2))
  ]

  -- A fill that fails either leaves the position as it was, or leaves it with the PnL booked and the
  -- old average price.
  pub apply_fill_torn :
      (p q : Position) (x : ModelError) (f : Fill) (inst : Instrument)
      → apply_fill p f inst ≡ (q, err x)
      → (q ≡ p)
        ⊎ ((r : Position) × (new_pnl p f inst ≡ ok r)
            × (q.realized_pnl ≡ r.realized_pnl)
            × (q.side ≡ side_of (new_size p f))
            × (q.avg_px_open ≡ p.avg_px_open))
  apply_fill_torn p q x f inst e = elim (apply_fill-book p f inst) [
    | inl (x, g) ↦ inl (ground (arith, g, e))
    | inr (r, g, eq, (m, kept)) ↦ elim (resize-cases r (new_size p f) (new_avg p f inst)) [
      | inl (x, c) ↦
          inr (
            r,
            g,
            ground (arith, c, eq, e),
            ground (arith, c, eq, e),
            ground (arith, c, eq, e, kept),
          )
      | inr (qty, h, inl (x, c)) ↦
          inr (
            r,
            g,
            ground (arith, c, eq, e),
            ground (arith, c, eq, e),
            ground (arith, c, eq, e, kept),
          )
      | inr (qty, h, inr (px, k, c)) ↦ absurd (ground (arith, c, eq, e))
    ]
  ]
