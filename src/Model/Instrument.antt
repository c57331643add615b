-- ===== src/Model/Instrument.antt =====
-- foundation/crates/coinext-model/src/instrument.rs: the instruments. The trait object is a data type
-- with a constructor for each implementation, and a method is a function by their clauses.
use coinext.Prelude.{ℕ, Bool, false, Option, none, some}
use coinext.Prelude.Int.{pos}
use coinext.Core.Error.{Result}
use coinext.Core.Decimal.{Decimals}
use coinext.Core.Price
use coinext.Core.Price.{Price}
use coinext.Core.Quantity
use coinext.Core.Quantity.{Quantity}
use coinext.Core.Currency.{Currency}
use coinext.Core.Money.{Money}
use coinext.Core.Time.{UnixNanos}
use coinext.Model.Enums.{AssetClass, OptionRight}
use coinext.Model.Ids.{InstrumentId}

pub record CurrencyPair ⦃d : Decimals⦄ : Type 0 where
  pub id : InstrumentId
  pub base : Currency
  pub quote : Currency
  pub price_precision : ℕ
  pub size_precision : ℕ
  pub price_increment : Price
  pub size_increment : Quantity
  pub min_notional : Option Money
  pub maker_fee : d.Decimal
  pub taker_fee : d.Decimal

pub record CryptoPerpetual ⦃d : Decimals⦄ : Type 0 where
  pub id : InstrumentId
  pub base : Currency
  pub quote : Currency
  pub settlement : Currency
  pub price_precision : ℕ
  pub size_precision : ℕ
  pub price_increment : Price
  pub size_increment : Quantity
  pub min_notional : Option Money
  pub multiplier : Quantity
  pub maker_fee : d.Decimal
  pub taker_fee : d.Decimal
  pub is_inverse : Bool
  pub funding_interval_ns : ℕ

pub record Equity ⦃d : Decimals⦄ : Type 0 where
  pub id : InstrumentId
  pub currency : Currency
  pub price_precision : ℕ
  pub size_precision : ℕ
  pub price_increment : Price
  pub size_increment : Quantity
  pub min_notional : Option Money
  pub maker_fee : d.Decimal
  pub taker_fee : d.Decimal

pub record FuturesContract ⦃d : Decimals⦄ : Type 0 where
  pub id : InstrumentId
  pub underlying : Option InstrumentId
  pub quote : Currency
  pub settlement : Currency
  pub price_precision : ℕ
  pub size_precision : ℕ
  pub price_increment : Price
  pub size_increment : Quantity
  pub min_notional : Option Money
  pub multiplier : Quantity
  pub maker_fee : d.Decimal
  pub taker_fee : d.Decimal
  pub expiry_ns : UnixNanos

pub record OptionContract ⦃d : Decimals⦄ : Type 0 where
  pub id : InstrumentId
  pub underlying : InstrumentId
  pub quote : Currency
  pub settlement : Currency
  pub price_precision : ℕ
  pub size_precision : ℕ
  pub price_increment : Price
  pub size_increment : Quantity
  pub min_notional : Option Money
  pub multiplier : Quantity
  pub maker_fee : d.Decimal
  pub taker_fee : d.Decimal
  pub strike : Price
  pub right : OptionRight
  pub expiry_ns : UnixNanos

pub data Instrument ⦃d : Decimals⦄ : Type 0 where
  currency_pair : CurrencyPair → Instrument
  crypto_perpetual : CryptoPerpetual → Instrument
  equity : Equity → Instrument
  futures_contract : FuturesContract → Instrument
  option_contract : OptionContract → Instrument

-- `Quantity::from_raw(1, 0)`, the contract size of spot and equity.
abbrev pub unit_multiplier : Quantity
unit_multiplier = record { raw = pos 1; precision = 0 }

module _ ⦃d : Decimals⦄ where
  unfoldable pub id_of : Instrument → InstrumentId
  id_of (currency_pair i) = i.id
  id_of (crypto_perpetual i) = i.id
  id_of (equity i) = i.id
  id_of (futures_contract i) = i.id
  id_of (option_contract i) = i.id

  unfoldable pub asset_class : Instrument → AssetClass
  asset_class (currency_pair i) = AssetClass.spot
  asset_class (crypto_perpetual i) = AssetClass.perp
  asset_class (equity i) = AssetClass.equity
  asset_class (futures_contract i) = AssetClass.future
  asset_class (option_contract i) = AssetClass.option

  unfoldable pub base_currency : Instrument → Currency
  base_currency (currency_pair i) = i.base
  base_currency (crypto_perpetual i) = i.base
  base_currency (equity i) = i.currency
  base_currency (futures_contract i) = i.quote
  base_currency (option_contract i) = i.quote

  unfoldable pub quote_currency : Instrument → Currency
  quote_currency (currency_pair i) = i.quote
  quote_currency (crypto_perpetual i) = i.quote
  quote_currency (equity i) = i.currency
  quote_currency (futures_contract i) = i.quote
  quote_currency (option_contract i) = i.quote

  unfoldable pub settlement_currency : Instrument → Currency
  settlement_currency (currency_pair i) = i.quote
  settlement_currency (crypto_perpetual i) = i.settlement
  settlement_currency (equity i) = i.currency
  settlement_currency (futures_contract i) = i.settlement
  settlement_currency (option_contract i) = i.settlement

  unfoldable pub price_precision : Instrument → ℕ
  price_precision (currency_pair i) = i.price_precision
  price_precision (crypto_perpetual i) = i.price_precision
  price_precision (equity i) = i.price_precision
  price_precision (futures_contract i) = i.price_precision
  price_precision (option_contract i) = i.price_precision

  unfoldable pub size_precision : Instrument → ℕ
  size_precision (currency_pair i) = i.size_precision
  size_precision (crypto_perpetual i) = i.size_precision
  size_precision (equity i) = i.size_precision
  size_precision (futures_contract i) = i.size_precision
  size_precision (option_contract i) = i.size_precision

  unfoldable pub price_increment : Instrument → Price
  price_increment (currency_pair i) = i.price_increment
  price_increment (crypto_perpetual i) = i.price_increment
  price_increment (equity i) = i.price_increment
  price_increment (futures_contract i) = i.price_increment
  price_increment (option_contract i) = i.price_increment

  unfoldable pub size_increment : Instrument → Quantity
  size_increment (currency_pair i) = i.size_increment
  size_increment (crypto_perpetual i) = i.size_increment
  size_increment (equity i) = i.size_increment
  size_increment (futures_contract i) = i.size_increment
  size_increment (option_contract i) = i.size_increment

  unfoldable pub min_notional : Instrument → Option Money
  min_notional (currency_pair i) = i.min_notional
  min_notional (crypto_perpetual i) = i.min_notional
  min_notional (equity i) = i.min_notional
  min_notional (futures_contract i) = i.min_notional
  min_notional (option_contract i) = i.min_notional

  unfoldable pub multiplier : Instrument → Quantity
  multiplier (currency_pair i) = unit_multiplier
  multiplier (crypto_perpetual i) = i.multiplier
  multiplier (equity i) = unit_multiplier
  multiplier (futures_contract i) = i.multiplier
  multiplier (option_contract i) = i.multiplier

  unfoldable pub maker_fee : Instrument → d.Decimal
  maker_fee (currency_pair i) = i.maker_fee
  maker_fee (crypto_perpetual i) = i.maker_fee
  maker_fee (equity i) = i.maker_fee
  maker_fee (futures_contract i) = i.maker_fee
  maker_fee (option_contract i) = i.maker_fee

  unfoldable pub taker_fee : Instrument → d.Decimal
  taker_fee (currency_pair i) = i.taker_fee
  taker_fee (crypto_perpetual i) = i.taker_fee
  taker_fee (equity i) = i.taker_fee
  taker_fee (futures_contract i) = i.taker_fee
  taker_fee (option_contract i) = i.taker_fee

  unfoldable pub is_inverse : Instrument → Bool
  is_inverse (currency_pair i) = false
  is_inverse (crypto_perpetual i) = i.is_inverse
  is_inverse (equity i) = false
  is_inverse (futures_contract i) = false
  is_inverse (option_contract i) = false

  unfoldable pub expiry_ns : Instrument → Option UnixNanos
  expiry_ns (currency_pair i) = none
  expiry_ns (crypto_perpetual i) = none
  expiry_ns (equity i) = none
  expiry_ns (futures_contract i) = some i.expiry_ns
  expiry_ns (option_contract i) = some i.expiry_ns

  unfoldable pub strike : Instrument → Option Price
  strike (currency_pair i) = none
  strike (crypto_perpetual i) = none
  strike (equity i) = none
  strike (futures_contract i) = none
  strike (option_contract i) = some i.strike

  unfoldable pub option_right : Instrument → Option OptionRight
  option_right (currency_pair i) = none
  option_right (crypto_perpetual i) = none
  option_right (equity i) = none
  option_right (futures_contract i) = none
  option_right (option_contract i) = some i.right

  unfoldable pub underlying : Instrument → Option InstrumentId
  underlying (currency_pair i) = none
  underlying (crypto_perpetual i) = none
  underlying (equity i) = none
  underlying (futures_contract i) = i.underlying
  underlying (option_contract i) = some i.underlying

  unfoldable pub make_price : Instrument → d.Decimal → Result Price
  unfolding price_precision
  make_price inst a = Price.from_decimal a (price_precision inst)

  unfoldable pub make_qty : Instrument → d.Decimal → Result Quantity
  unfolding size_precision
  make_qty inst a = Quantity.from_decimal a (size_precision inst)
