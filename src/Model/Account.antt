-- ===== src/Model/Account.antt =====
-- foundation/crates/coinext-model/src/account.rs: the balances of an account.
pub mod Balances
use coinext.Prelude.{String, Option, none, some, List, []}
use coinext.Prelude.Maps.{get, insert}
use coinext.Core.Error.{Result, ok, ◌>>=◌}
use coinext.Core.Currency.{Currency, currency_eq}
use coinext.Core.Money
use coinext.Core.Money.{Money}

pub record AccountState : Type 0 where
  pub account_id : String
  pub balances : List (Currency × Money)
  pub margin_used : Money

unfoldable pub new : String → Currency → AccountState
new account_id margin_ccy = record {
  account_id = account_id;
  balances = [];
  margin_used = Money.zero margin_ccy;
}

abbrev money_or : Option Money → Money → Money
money_or none m = m
money_or (some n) m = n

unfoldable pub balance : AccountState → Currency → Money
unfolding get
balance a ccy = money_or (get ccy a.balances) (Money.zero ccy)

unfoldable pub set_balance : AccountState → Money → AccountState
unfolding insert
set_balance a m = record a { balances = insert m.currency m a.balances }

unfoldable pub adjust : AccountState → Money → Result AccountState
unfolding balance insert
adjust a delta = do
  sum ← Money.checked_add (balance a delta.currency) delta
  ok (record a { balances = insert delta.currency sum a.balances })
