-- ===== src/Core/Price/RoundTrip.antt =====
-- foundation/crates/coinext-core/src/value.rs: from a price to a decimal and back, and what the
-- constructors of `Price` accept.
use coinext.Prelude.{ℕ, ◌≡◌, ◌≤◌, ◌<◌, ◌^◌, true, arith}
use coinext.Prelude.Int.{ℤ, pos, ◌≤ℤ◌, pos_part, fits}
use coinext.Core.Error.{ok}
use coinext.Core.Decimal.{Decimals, KeepsScale}
use coinext.Core.Price.{Price, max_precision, from_raw, from_decimal, as_decimal, quantize}

-- The values that `from_raw` builds: an i64 that is not negative, at a supported precision.
pub record IsValid (p : Price) : Type 0 where
  pub nonneg : pos 0 ≤ℤ p.raw
  pub fits_i64 : pos_part p.raw < 2 ^ 63
  pub supported : p.precision ≤ max_precision

pub fits_mono : (n : ℤ) → pos 0 ≤ℤ n → pos_part n < 2 ^ 63 → (fits 96 n ≡ true) × (fits 63 n ≡ true)
fits_mono n h k = ground arith

module _ ⦃d : Decimals⦄ where
  pub quantize-with_scale :
      (n : ℤ) (s : ℕ)
      → KeepsScale
      → fits 96 n ≡ true
      → s ≤ max_precision
      → quantize (d.with_scale n s) s ≡ ok n
  unfolding quantize
  quantize-with_scale n s k f h =
      let kept = k.scale-with_scale n s f (omega arith) in
      ground (
        arith,
        k.mantissa-with_scale n s f,
        kept,
        k.round_dp_same (d.with_scale n s) s kept,
        k.rescale_same (d.with_scale n s) s kept,
      )

  -- A valid price is recovered from its decimal, if decimals keep their scale.
  pub from_decimal-as_decimal :
      (p : Price) → KeepsScale → IsValid p → from_decimal (as_decimal p) p.precision ≡ ok p
  unfolding from_decimal as_decimal from_raw
  from_decimal-as_decimal p k v =
      let f = fits_mono p.raw v.nonneg v.fits_i64 in
      ground (arith, quantize-with_scale p.raw p.precision k f.0 v.supported, f.1)

  -- Whatever decimal is given, a price that `from_decimal` returns is valid and has the precision
  -- asked for.
  pub from_decimal-IsValid :
      (a : d.Decimal) (precision : ℕ) {p : Price}
      → from_decimal a precision ≡ ok p
      → IsValid p × (p.precision ≡ precision)
  unfolding from_decimal from_raw
  from_decimal-IsValid a precision e = ground arith
