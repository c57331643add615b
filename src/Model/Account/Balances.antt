-- ===== src/Model/Account/Balances.antt =====
-- foundation/crates/coinext-model/src/account.rs: what reading a balance gives after a change.
use coinext.Prelude.{◌≡◌, ap, ◌∙◌, ◌≢◌, true, arith, if◌then◌else◌, inl, inr}
use coinext.Prelude.Int.{◌+ℤ◌, fits}
use coinext.Prelude.Maps.{get-insert, ◌==◌}
use coinext.Core.Error.{ok, Result-cases}
use coinext.Core.Currency.{Currency, currency_eq, currency_beq_iff}
use coinext.Core.Money
use coinext.Core.Money.{Money}
use coinext.Core.Money.Sums.{checked_add_iff}
use coinext.Model.Account.{AccountState, balance, adjust, set_balance}

-- Every balance is kept under its own currency.
abbrev pub IsKeyed : AccountState → Type 0
IsKeyed a = (c : Currency) → (balance a c).currency ≡ c

balance-insert :
    (a : AccountState) (m : Money) (c : Currency)
    → balance (set_balance a m) c ≡ (if m.currency == c then m else balance a c)
unfolding balance set_balance
balance-insert a m c = ground (arith, get-insert m.currency c m a.balances)

adjust_sum :
    (a : AccountState) (delta : Money) {b : AccountState}
    → IsKeyed a
    → adjust a delta ≡ ok b
    → (s : Money) × (Money.checked_add (balance a delta.currency) delta ≡ ok s)
      × (s.currency ≡ delta.currency)
      × (b ≡ set_balance a s)
unfolding adjust set_balance
adjust_sum a delta k e = elim (Result-cases (Money.checked_add (balance a delta.currency) delta)) [
  | inl (s, g) ↦
      let sum = (checked_add_iff (balance a delta.currency) delta s).0 g in
      let c = ap (λ m. m.currency) sum.2 ∙ k delta.currency in (s, g, c, ground (arith, g, e, c))
  | inr (x, g) ↦ absurd (ground (arith, g, e))
]

set_balance_lem :
    (a : AccountState) (s : Money) (c : Currency)
    → IsKeyed a
    → (balance (set_balance a s) s.currency ≡ s)
      × (s.currency ≢ c → balance (set_balance a s) c ≡ balance a c)
      × ((balance (set_balance a s) c).currency ≡ c)
set_balance_lem a s c k =
    let self = balance-insert a s s.currency in
    let at = balance-insert a s c in
    (
      ground (arith, self, currency_beq_iff s.currency s.currency),
      ground (arith, at, currency_beq_iff s.currency c),
      ground (arith, at, k c, currency_beq_iff s.currency c),
    )

-- An adjustment that succeeds adds the amount to the balance of its currency, exactly and without
-- overflow, changes no other balance, and keeps each balance under its own currency.
pub adjust_lem :
    (a : AccountState) (delta : Money) {b : AccountState}
    → IsKeyed a
    → adjust a delta ≡ ok b
    → ((balance b delta.currency).raw ≡ (balance a delta.currency).raw +ℤ delta.raw)
      × (fits 127 (balance b delta.currency).raw ≡ true)
      × ((c : Currency) → delta.currency ≢ c → balance b c ≡ balance a c)
      × IsKeyed b
adjust_lem a delta k e =
    let (s, g, c, eq) = adjust_sum a delta k e in
    let sum = (checked_add_iff (balance a delta.currency) delta s).0 g in
    (
      ground (arith, sum, c, eq, set_balance_lem a s delta.currency k),
      ground (arith, sum, c, eq, set_balance_lem a s delta.currency k),
      λ x n. ground (arith, c, eq, set_balance_lem a s x k),
      λ x. ground (arith, eq, set_balance_lem a s x k),
    )
