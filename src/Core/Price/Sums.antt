-- ===== src/Core/Price/Sums.antt =====
-- foundation/crates/coinext-core/src/value.rs: checked addition and subtraction of prices.
use coinext.Prelude.{◌≡◌, ◌↔◌, true, arith}
use coinext.Prelude.Int.{ℤ, pos, ◌+ℤ◌, ◌-ℤ◌, ◌<ℤ◌, fits, int_laws}
use coinext.Core.Error.{ok, err, negative}
use coinext.Core.Price.{Price, checked_add, checked_sub, from_raw}
use coinext.Core.Price.RoundTrip.{IsValid}

+ℤ-ℤ_cancel : (a b : ℤ) → a +ℤ b -ℤ b ≡ a
+ℤ-ℤ_cancel a b = omega int_laws

-- Subtracting what was added gives the price again.
pub sub-add :
    (p o : Price) {s : Price}
    → fits 63 p.raw ≡ true
    → checked_add p o ≡ ok s
    → checked_sub s o ≡ ok p
unfolding checked_add checked_sub
sub-add p o f e = ground (arith, +ℤ-ℤ_cancel p.raw o.raw)

-- Addition succeeds exactly on two prices of one precision whose exact sum is an i64, and then
-- returns that sum.
pub checked_add_iff :
    (p o s : Price)
    → (checked_add p o ≡ ok s) ↔ (
        (p.precision ≡ o.precision)
        × (fits 63 (p.raw +ℤ o.raw) ≡ true)
        × (s ≡ record { raw = p.raw +ℤ o.raw; precision = p.precision }))
unfolding checked_add
checked_add_iff p o s = ground arith

-- The difference of two valid prices of one precision is never refused: if the second is larger
-- the result is negative, a price that `from_raw` does not build.
pub checked_sub_negative :
    (p o : Price)
    → IsValid p
    → IsValid o
    → p.precision ≡ o.precision
    → p.raw <ℤ o.raw
    → (r : Price) × (checked_sub p o ≡ ok r)
      × (r.raw <ℤ pos 0)
      × (from_raw r.raw r.precision ≡ err negative)
unfolding checked_sub from_raw ◌-ℤ◌
checked_sub_negative p o v w e h = (
  record { raw = p.raw -ℤ o.raw; precision = p.precision },
  ground arith,
  ground arith,
  ground arith,
)
