-- ===== src/Core/Money.antt =====
-- foundation/crates/coinext-core/src/value.rs: `Money`, a signed amount (an i128) of a currency.
pub mod Sums
use coinext.Prelude.{Bool, not}
use coinext.Prelude.Int.{ℤ, pos, checked, beq_ℤ, ◌+ℤ◌, ◌-ℤ◌}
use coinext.Prelude.Maps.{◌==◌}
use coinext.Core.Error.{Result, ok, ◌>>=◌, ◌>>◌, fail_if, ok_or, overflow, currency_mismatch}
use coinext.Core.Decimal.{Decimals}
use coinext.Core.Price.{quantize}
use coinext.Core.Currency.{Currency, currency_eq, code_of}

pub record Money : Type 0 where
  pub raw : ℤ
  pub currency : Currency

unfoldable pub from_raw : ℤ → Currency → Money
from_raw raw currency = record { raw = raw; currency = currency }

unfoldable pub zero : Currency → Money
zero currency = record { raw = pos 0; currency = currency }

unfoldable pub is_zero : Money → Bool
is_zero m = beq_ℤ m.raw (pos 0)

same_currency : Money → Money → Result (Unit {0})
same_currency m o =
    fail_if (not (m.currency == o.currency))
      (currency_mismatch (code_of m.currency) (code_of o.currency))

unfoldable pub checked_add : Money → Money → Result Money
unfolding same_currency
checked_add m o = do
  same_currency m o
  raw ← ok_or (checked 127 (m.raw +ℤ o.raw)) overflow
  ok (record { raw = raw; currency = m.currency })

unfoldable pub checked_sub : Money → Money → Result Money
unfolding same_currency
checked_sub m o = do
  same_currency m o
  raw ← ok_or (checked 127 (m.raw -ℤ o.raw)) overflow
  ok (record { raw = raw; currency = m.currency })

module _ ⦃d : Decimals⦄ where
  unfoldable pub from_decimal : d.Decimal → Currency → Result Money
  unfolding quantize
  from_decimal a currency = do
    raw ← quantize a currency.precision
    ok (record { raw = raw; currency = currency })

  unfoldable pub amount : Money → d.Decimal
  amount m = d.with_scale m.raw m.currency.precision
