-- ===== src/Portfolio.antt =====
-- risk-portfolio/crates/coinext-portfolio/src/lib.rs: figures of the account, read from the store.
use coinext.Prelude.{◌&&◌, Option, none, some, List, [], ◌∷◌, if◌then◌else◌}
use coinext.Prelude.Maps.{◌==◌}
use coinext.Core.Error.{unwrap_or}
use coinext.Core.Decimal.{Decimals}
use coinext.Core.Price
use coinext.Core.Price.{Price}
use coinext.Core.Currency.{Currency, currency_eq}
use coinext.Core.Money
use coinext.Core.Money.{Money}
use coinext.Model.Ids.{InstrumentId}
use coinext.Model.Instrument.{Instrument, is_inverse, quote_currency, base_currency}
use coinext.Model.Account
use coinext.Model.Account.{AccountState}
use coinext.Model.Position
use coinext.Model.Position.{Position}
use coinext.Cache
use coinext.Cache.{Cache}
use coinext.Ports.{Portfolio}

module _ ⦃d : Decimals⦄ where
  unfoldable pub convert_to_settle : Money → Instrument → Price → Currency → Option d.Decimal
  convert_to_settle value inst mark settle =
      if value.currency == settle
      then some (Money.amount value)
      else if is_inverse inst
          && (quote_currency inst == settle && value.currency == base_currency inst)
      then some (d.mul (Money.amount value) (Price.as_decimal mark))
      else none

  -- A figure of a position that needs its instrument and its mark.
  abbrev valued {ℓ} :
      {A : Type ℓ}
      → Option Position
      → Option Instrument
      → Option Price
      → (Position → Instrument → Price → A)
      → A
      → A
  valued (some p) (some i) (some m) f a = f p i m
  valued none i m f a = a
  valued (some p) none m f a = a
  valued (some p) (some i) none f a = a

  unfoldable pub net_exposure : Currency → Cache → InstrumentId → Money
  net_exposure settle c id =
      valued (Cache.position c id) (Cache.instrument c id) (Cache.mark c id)
        (λ p i m. Position.notional p m i) (Money.zero settle)

  unfoldable pub unrealized_pnl : Currency → Cache → InstrumentId → Money
  unrealized_pnl settle c id =
      valued (Cache.position c id) (Cache.instrument c id) (Cache.mark c id)
        (λ p i m. Position.unrealized_pnl p m i) (Money.zero settle)

  abbrev realized_of : Option Position → Money → Money
  realized_of none m = m
  realized_of (some p) m = p.realized_pnl

  unfoldable pub realized_pnl : Currency → Cache → InstrumentId → Money
  realized_pnl settle c id = realized_of (Cache.position c id) (Money.zero settle)

  -- `total += amt`, if there is an amount.
  abbrev plus : d.Decimal → Option d.Decimal → d.Decimal
  plus total none = total
  plus total (some a) = d.add total a

  exposure_of : Currency → Cache → Position → Option d.Decimal
  exposure_of settle c p =
      valued (some p) (Cache.instrument c p.instrument_id) (Cache.mark c p.instrument_id)
        (λ q i m. convert_to_settle (Position.notional q m i) i m settle) none

  total_exposure : Currency → Cache → d.Decimal → List Position → d.Decimal
  unfolding exposure_of
  total_exposure settle c total [] = total
  total_exposure settle c total (p ∷ ps) =
      total_exposure settle c (plus total (exposure_of settle c p)) ps

  unfoldable pub gross_exposure : Currency → Cache → Money
  unfolding total_exposure
  gross_exposure settle c =
      unwrap_or
        (Money.from_decimal (total_exposure settle c d.zero (Cache.position_values c)) settle)
        (Money.zero settle)

  abbrev balance_of : Option AccountState → Currency → Money
  balance_of none ccy = Money.zero ccy
  balance_of (some a) ccy = Account.balance a ccy

  unfoldable pub balance : Currency → Cache → Currency → Money
  balance settle c ccy = balance_of c.account ccy

  abbrev account_equity : Option AccountState → Currency → d.Decimal
  account_equity none settle = d.zero
  account_equity (some a) settle = Money.amount (Account.balance a settle)

  realized_in : Currency → Cache → Position → Option d.Decimal
  realized_in settle c p =
      if p.realized_pnl.currency == settle
      then some (Money.amount p.realized_pnl)
      else valued (some p) (Cache.instrument c p.instrument_id) (Cache.mark c p.instrument_id)
          (λ q i m. convert_to_settle q.realized_pnl i m settle) none

  unrealized_in : Currency → Cache → Position → Option d.Decimal
  unrealized_in settle c p =
      valued (some p) (Cache.instrument c p.instrument_id) (Cache.mark c p.instrument_id)
        (λ q i m. convert_to_settle (Position.unrealized_pnl q m i) i m settle) none

  total_equity : Currency → Cache → d.Decimal → List Position → d.Decimal
  unfolding realized_in unrealized_in
  total_equity settle c total [] = total
  total_equity settle c total (p ∷ ps) =
      total_equity settle c (plus (plus total (realized_in settle c p)) (unrealized_in settle c p))
        ps

  unfoldable pub equity : Currency → Cache → Money
  unfolding total_equity
  equity settle c =
      unwrap_or
        (Money.from_decimal
          (total_equity settle c (account_equity c.account settle) (Cache.position_values c))
          settle)
        (Money.zero settle)

  -- `impl Portfolio for PortfolioState`
  abbrev pub portfolio_state : Currency → Portfolio
  portfolio_state settle = record {
    position = Cache.position;
    net_exposure = net_exposure settle;
    unrealized_pnl = unrealized_pnl settle;
    realized_pnl = realized_pnl settle;
    gross_exposure = gross_exposure settle;
    balance = balance settle;
    equity = equity settle;
  }
