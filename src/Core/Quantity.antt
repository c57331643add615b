-- ===== src/Core/Quantity.antt =====
-- foundation/crates/coinext-core/src/value.rs: `Quantity`, a size that is never negative.
pub mod RoundTrip
pub mod Sums
use coinext.Prelude.{ℕ, Bool, nat_beq, not, ◌&&◌}
use coinext.Prelude.Int.{ℤ, pos, checked, ltb_ℤ, beq_ℤ, max_zero, ◌+ℤ◌, ◌-ℤ◌}
use coinext.Core.Error.{
  Result, ok, ◌>>=◌, ◌>>◌, fail_if, ok_or, negative, out_of_range, overflow, not_finite,
  precision_mismatch,
}
use coinext.Core.Decimal.{Decimals}
use coinext.Core.Price.{check_precision, quantize}

-- A size is `raw / 10 ^ precision`; `raw` is an i64 and `precision` a u8.
pub record Quantity : Type 0 where
  pub raw : ℤ
  pub precision : ℕ

unfoldable pub from_raw : ℤ → ℕ → Result Quantity
unfolding check_precision
from_raw raw precision = do
  check_precision precision
  fail_if (ltb_ℤ raw (pos 0)) negative
  ok (record { raw = raw; precision = precision })

unfoldable pub zero : ℕ → Quantity
zero precision = record { raw = pos 0; precision = precision }

unfoldable pub is_zero : Quantity → Bool
is_zero q = beq_ℤ q.raw (pos 0)

unfoldable pub is_positive : Quantity → Bool
is_positive q = ltb_ℤ (pos 0) q.raw

abbrev same_precision : Quantity → Quantity → Result (Unit {0})
same_precision q o =
    fail_if (not (nat_beq q.precision o.precision)) (precision_mismatch q.precision o.precision)

unfoldable pub checked_add : Quantity → Quantity → Result Quantity
unfolding from_raw
checked_add q o = do
  same_precision q o
  raw ← ok_or (checked 63 (q.raw +ℤ o.raw)) overflow
  from_raw raw q.precision

-- Saturates at zero.
unfoldable pub checked_sub : Quantity → Quantity → Result Quantity
unfolding from_raw
checked_sub q o = do
  same_precision q o
  raw ← ok_or (checked 63 (q.raw -ℤ o.raw)) overflow
  from_raw (max_zero raw) q.precision

module _ ⦃d : Decimals⦄ where
  unfoldable pub from_decimal : d.Decimal → ℕ → Result Quantity
  unfolding quantize from_raw
  from_decimal a precision = do
    fail_if (d.is_sign_negative a && not (d.is_zero a)) negative
    mantissa ← quantize a precision
    raw ← ok_or (checked 63 mantissa) out_of_range
    from_raw raw precision

  unfoldable pub from_f64 : d.F64 → ℕ → Result Quantity
  from_f64 v precision = do
    fail_if (not (d.is_finite v)) not_finite
    a ← ok_or (d.from_f64_retain v) out_of_range
    from_decimal a precision

  unfoldable pub as_decimal : Quantity → d.Decimal
  as_decimal q = d.with_scale q.raw q.precision
