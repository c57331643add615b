-- ===== src/Core/Quantity/Sums.antt =====
-- foundation/crates/coinext-core/src/value.rs: checked addition and saturating subtraction of sizes.
use coinext.Prelude.{◌≡◌, ◌+◌, ◌-◌, arith}
use coinext.Prelude.Int.{pos, ◌+ℤ◌, ◌-ℤ◌, pos_part}
use coinext.Core.Error.{ok}
use coinext.Core.Quantity.{Quantity, checked_add, checked_sub, from_raw}
use coinext.Core.Quantity.RoundTrip.{IsValid}

module _ (q o : Quantity) (v : IsValid q) (w : IsValid o) where
  -- A sum that is returned is valid and exact.
  pub checked_add-IsValid :
      {s : Quantity}
      → checked_add q o ≡ ok s
      → IsValid s × (s.raw ≡ pos (pos_part q.raw + pos_part o.raw))
  unfolding checked_add from_raw ◌+ℤ◌
  checked_add-IsValid e = ground arith

  -- Valid sizes of one precision can always be subtracted; the result is valid and is the difference
  -- cut off at zero.
  pub checked_sub_total :
      q.precision ≡ o.precision
      → let r : Quantity = record {
        raw = pos (pos_part q.raw - pos_part o.raw);
        precision = q.precision;
      } in
        (checked_sub q o ≡ ok r) × IsValid r
  unfolding checked_sub from_raw ◌-ℤ◌
  checked_sub_total e = ground arith

  -- Adding and subtracting a size gives the first size again.
  pub sub-add : {s : Quantity} → checked_add q o ≡ ok s → checked_sub s o ≡ ok q
  unfolding checked_add checked_sub from_raw ◌+ℤ◌ ◌-ℤ◌
  sub-add e = ground arith
