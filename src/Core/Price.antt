-- ===== src/Core/Price.antt =====
-- foundation/crates/coinext-core/src/value.rs: precision checks, quantization and `Price`.
pub mod RoundTrip
pub mod Sums
use coinext.Prelude.{ℕ, Bool, ◌&&◌, ◌||◌, ltb, leb, nat_beq, not, if◌then◌else◌}
use coinext.Prelude.Int.{ℤ, pos, checked, ltb_ℤ, beq_ℤ, ◌+ℤ◌, ◌-ℤ◌}
use coinext.Core.Error.{
  Result, ok, ◌>>=◌, ◌>>◌, fail_if, ok_or, negative, out_of_range, overflow, not_finite,
  precision_mismatch,
}
use coinext.Core.Decimal.{Decimals}

abbrev pub max_precision : ℕ
max_precision = 18

unfoldable pub check_precision : ℕ → Result (Unit {0})
check_precision precision = fail_if (ltb max_precision precision) out_of_range

-- A price is `raw / 10 ^ precision`; `raw` is an i64 and `precision` a u8.
pub record Price : Type 0 where
  pub raw : ℤ
  pub precision : ℕ

unfoldable pub from_raw : ℤ → ℕ → Result Price
unfolding check_precision
from_raw raw precision = do
  check_precision precision
  fail_if (ltb_ℤ raw (pos 0)) negative
  ok (record { raw = raw; precision = precision })

unfoldable pub zero : ℕ → Price
zero precision = record { raw = pos 0; precision = precision }

unfoldable pub is_zero : Price → Bool
is_zero p = beq_ℤ p.raw (pos 0)

abbrev same_precision : Price → Price → Result (Unit {0})
same_precision p o =
    fail_if (not (nat_beq p.precision o.precision)) (precision_mismatch p.precision o.precision)

unfoldable pub checked_add : Price → Price → Result Price
checked_add p o = do
  same_precision p o
  raw ← ok_or (checked 63 (p.raw +ℤ o.raw)) overflow
  ok (record { raw = raw; precision = p.precision })

unfoldable pub checked_sub : Price → Price → Result Price
checked_sub p o = do
  same_precision p o
  raw ← ok_or (checked 63 (p.raw -ℤ o.raw)) overflow
  ok (record { raw = raw; precision = p.precision })

-- The derived order of `Price` compares the raw values, then the precisions.
abbrev pub le : Price → Price → Bool
le a b = ltb_ℤ a.raw b.raw || (beq_ℤ a.raw b.raw && leb a.precision b.precision)

abbrev pub lt : Price → Price → Bool
lt a b = ltb_ℤ a.raw b.raw || (beq_ℤ a.raw b.raw && ltb a.precision b.precision)

abbrev pub beq : Price → Price → Bool
beq a b = beq_ℤ a.raw b.raw && nat_beq a.precision b.precision

-- `Ord::min` and `Ord::max`.
abbrev pub min : Price → Price → Price
min a b = if lt b a then b else a

abbrev pub max : Price → Price → Price
max a b = if lt b a then a else b

module _ ⦃d : Decimals⦄ where
  -- The integer mantissa at exactly `precision` places; a rescale that was capped is an error.
  unfoldable pub quantize : d.Decimal → ℕ → Result ℤ
  unfolding check_precision
  quantize a precision = do
    check_precision precision
    let q = d.rescale (d.round_dp a precision) precision
    fail_if (not (nat_beq (d.scale q) precision)) out_of_range
    ok (d.mantissa q)

  unfoldable pub from_decimal : d.Decimal → ℕ → Result Price
  unfolding quantize from_raw
  from_decimal a precision = do
    mantissa ← quantize a precision
    raw ← ok_or (checked 63 mantissa) out_of_range
    from_raw raw precision

  unfoldable pub from_f64 : d.F64 → ℕ → Result Price
  from_f64 v precision = do
    fail_if (not (d.is_finite v)) not_finite
    a ← ok_or (d.from_f64_retain v) out_of_range
    from_decimal a precision

  unfoldable pub as_decimal : Price → d.Decimal
  as_decimal p = d.with_scale p.raw p.precision
