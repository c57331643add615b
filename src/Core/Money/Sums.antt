-- ===== src/Core/Money/Sums.antt =====
-- foundation/crates/coinext-core/src/value.rs: checked addition and subtraction of amounts.
use coinext.Prelude.{◌≡◌, ◌↔◌, true, arith}
use coinext.Prelude.Int.{ℤ, ◌+ℤ◌, ◌-ℤ◌, fits, int_laws}
use coinext.Core.Error.{ok}
use coinext.Core.Currency.{currency_beq_iff}
use coinext.Core.Money.{Money, checked_add, checked_sub}

+ℤ-ℤ_cancel : (a b : ℤ) → a +ℤ b -ℤ b ≡ a
+ℤ-ℤ_cancel a b = omega int_laws

-- Addition succeeds exactly on two amounts of one currency whose exact sum is an i128, and then
-- returns that sum in that currency.
pub checked_add_iff :
    (m o s : Money)
    → (checked_add m o ≡ ok s) ↔ (
        (m.currency ≡ o.currency)
        × (fits 127 (m.raw +ℤ o.raw) ≡ true)
        × (s ≡ record { raw = m.raw +ℤ o.raw; currency = m.currency }))
unfolding checked_add
checked_add_iff m o s = ground (arith, currency_beq_iff m.currency o.currency)

-- Subtracting what was added gives the first amount again.
pub sub-add :
    (m o : Money) {s : Money}
    → fits 127 m.raw ≡ true
    → checked_add m o ≡ ok s
    → checked_sub s o ≡ ok m
unfolding checked_add checked_sub
sub-add m o f e = ground (arith, +ℤ-ℤ_cancel m.raw o.raw, currency_beq_iff m.currency o.currency)
