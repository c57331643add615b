-- ===== src/Core/Quantity/RoundTrip.antt =====
-- foundation/crates/coinext-core/src/value.rs: from a size to a decimal and back, and what the
-- constructors of `Quantity` accept.
use coinext.Prelude.{ℕ, ◌≡◌, ◌≤◌, ◌<◌, ◌^◌, false, arith}
use coinext.Prelude.Int.{pos, ◌≤ℤ◌, pos_part}
use coinext.Core.Error.{ok}
use coinext.Core.Decimal.{Decimals, KeepsScale}
use coinext.Core.Quantity.{Quantity, from_raw, from_decimal, as_decimal}
use coinext.Core.Price.{max_precision}
use coinext.Core.Price.RoundTrip.{fits_mono, quantize-with_scale}

-- The values that `from_raw` builds: an i64 that is not negative, at a supported precision.
pub record IsValid (p : Quantity) : Type 0 where
  pub nonneg : pos 0 ≤ℤ p.raw
  pub fits_i64 : pos_part p.raw < 2 ^ 63
  pub supported : p.precision ≤ max_precision

module _ ⦃d : Decimals⦄ where
  -- A valid size is recovered from its decimal, if decimals keep their scale and this one has no
  -- minus sign.
  pub from_decimal-as_decimal :
      (p : Quantity)
      → KeepsScale
      → d.is_sign_negative (as_decimal p) ≡ false
      → IsValid p
      → from_decimal (as_decimal p) p.precision ≡ ok p
  unfolding from_decimal as_decimal from_raw
  from_decimal-as_decimal p k plus v =
      let f = fits_mono p.raw v.nonneg v.fits_i64 in
      ground (arith, quantize-with_scale p.raw p.precision k f.0 v.supported, f.1)

  -- Whatever decimal is given, a size that `from_decimal` returns is valid and has the precision
  -- asked for.
  pub from_decimal-IsValid :
      (a : d.Decimal) (precision : ℕ) {p : Quantity}
      → from_decimal a precision ≡ ok p
      → IsValid p × (p.precision ≡ precision)
  unfolding from_decimal from_raw
  from_decimal-IsValid a precision e = ground arith
