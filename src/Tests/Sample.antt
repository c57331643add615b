-- ===== src/Tests/Sample.antt =====
-- A sample of decimals, a mantissa and a scale, with rounding half to even; no test reads the text of
-- a decimal.
use Prim.Native.Nat.{Ordering, compare}
use coinext.Prelude.{
  ℕ, ◌+◌, ◌-◌, ◌*◌, ◌/◌, ◌%◌, ◌^◌, ◌≡◌, refl, Bool, true, false, ◌||◌, ◌&&◌, none, some, [], ◌∷◌,
  arith, leb, ltb, nat_beq, if◌then◌else◌,
}
use coinext.Prelude.Int.{ℤ, pos, negsuc, pos_part, neg_part, sub_ℕ, ◌+ℤ◌, ◌-ℤ◌, beq_ℤ}
use coinext.Core.Decimal.{Decimals, KeepsScale}
use coinext.Core.Price.{Price}
use coinext.Core.Quantity.{Quantity}
use coinext.Core.Currency.{Currency}
use coinext.Model.Enums.{OrderSide, OrderType, TimeInForce, LiquiditySide}
use coinext.Model.Ids.{InstrumentId}
use coinext.Model.Instrument.{Instrument}
use coinext.Model.Fill.{Fill}
use coinext.Model.MarketData.{MarketEvent}
use coinext.Model.Order.{Init}
use coinext.Sim.Brokerage.{BrokerageModel}

abbrev pub Sample : Type 0
Sample = ℤ × ℕ

abbrev pub size_of : ℤ → ℕ
size_of a = pos_part a + neg_part a

abbrev pub with_sign : Bool → ℕ → ℤ
with_sign true n = sub_ℕ 0 n
with_sign false n = pos n

abbrev pub is_neg : ℤ → Bool
is_neg (pos n) = false
is_neg (negsuc n) = true

abbrev differ : Bool → Bool → Bool
differ true false = true
differ false true = true
differ _ _ = false

abbrev pub times : ℤ → ℤ → ℤ
times a b = with_sign (differ (is_neg a) (is_neg b)) (size_of a * size_of b)

abbrev pub aligned : Sample → ℕ → ℤ
aligned a s = times a.0 (pos (10 ^ (s - a.1)))

abbrev pub larger : ℕ → ℕ → ℕ
larger a b = if leb a b then b else a

-- Halves go to the even neighbour.
abbrev pub half_even : ℕ → ℕ → ℕ
half_even n p =
    let q = n / p in
    let r = n % p in if ltb p (2 * r) || (nat_beq (2 * r) p && nat_beq (q % 2) 1) then q + 1 else q

abbrev pub round_to : Sample → ℕ → Sample
round_to a n =
    if leb a.1 n then a else (with_sign (is_neg a.0) (half_even (size_of a.0) (10 ^ (a.1 - n))), n)

abbrev cut_to : Sample → ℕ → Sample
cut_to a n = if leb a.1 n then a else (with_sign (is_neg a.0) (size_of a.0 / 10 ^ (a.1 - n)), n)

abbrev pub scaled : Sample → ℕ → Sample
scaled a n = if leb n a.1 then round_to a n else (aligned a n, n)

abbrev pub ordering : ℤ → ℤ → Ordering
ordering a b = compare (pos_part a + neg_part b) (pos_part b + neg_part a)

-- Eight places behind the scale of the dividend.
abbrev quotient : Sample → Sample → Sample
quotient a b = (
  with_sign (differ (is_neg a.0) (is_neg b.0)) (size_of a.0 * 10 ^ (b.1 + 8) / size_of b.0),
  a.1 + 8,
)

instance abbrev pub sample_decimals : Decimals
sample_decimals = record {
  Decimal = Sample;
  zero = (pos 0, 0);
  one = (pos 1, 0);
  add = λ a b. let s = larger a.1 b.1 in (aligned a s +ℤ aligned b s, s);
  sub = λ a b. let s = larger a.1 b.1 in (aligned a s -ℤ aligned b s, s);
  mul = λ a b. (times a.0 b.0, a.1 + b.1);
  div = quotient;
  neg = λ a. (times (negsuc 0) a.0, a.1);
  abs = λ a. (pos (size_of a.0), a.1);
  cmp = λ a b. let s = larger a.1 b.1 in ordering (aligned a s) (aligned b s);
  is_zero = λ a. beq_ℤ a.0 (pos 0);
  is_sign_negative = λ a. is_neg a.0;
  with_scale = λ n s. (n, s);
  mantissa = λ a. a.0;
  scale = λ a. a.1;
  round_dp = round_to;
  round_to_zero = cut_to;
  rescale = scaled;
  to_text = λ a. "";
  F64 = Sample;
  is_finite = λ a. true;
  from_f64_retain = λ a. some a;
}

same_scale : (a : Sample) (s : ℕ) → a.1 ≡ s → round_to a s ≡ a
same_scale a s h = ground arith

same_rescale : (a : Sample) (s : ℕ) → a.1 ≡ s → scaled a s ≡ a
same_rescale a s h = ground arith

pub sample_keeps : KeepsScale
sample_keeps = record {
  mantissa-with_scale = λ n s f h. refl;
  scale-with_scale = λ n s f h. refl;
  round_dp_same = same_scale;
  rescale_same = same_rescale;
}

-- One instrument, one order and one fill.
abbrev pub btc_usdt : InstrumentId
btc_usdt = record { symbol = "BTCUSDT"; venue = "BINANCE" }

abbrev pub usdt : Currency
usdt = record { code = 85 ∷ 83 ∷ 68 ∷ 84 ∷ 0 ∷ 0 ∷ 0 ∷ 0 ∷ []; precision = 2 }

abbrev pub btc : Currency
btc = record { code = 66 ∷ 84 ∷ 67 ∷ 0 ∷ 0 ∷ 0 ∷ 0 ∷ 0 ∷ []; precision = 3 }

abbrev pub price : ℕ → Price
price n = record { raw = pos n; precision = 2 }

abbrev pub quantity : ℕ → Quantity
quantity n = record { raw = pos n; precision = 3 }

abbrev pub pair : Instrument
pair = Instrument.currency_pair (record {
  id = btc_usdt;
  base = btc;
  quote = usdt;
  price_precision = 2;
  size_precision = 3;
  price_increment = price 1;
  size_increment = quantity 1;
  min_notional = none;
  maker_fee = (pos 0, 0);
  taker_fee = (pos 0, 0);
})

abbrev pub init : Init
init = record {
  client_order_id = "c-1";
  instrument_id = btc_usdt;
  side = OrderSide.buy;
  order_type = OrderType.market;
  quantity = quantity 2000;
  price = none;
  trigger = none;
  tif = TimeInForce.gtc;
  flags = record { post_only = false; reduce_only = false; display_qty = none };
  ts = 1;
}

-- A buy of 2.000 at 100.00, without a fee.
abbrev pub fill : Fill
fill = record {
  trade_id = "t-1";
  client_order_id = "c-1";
  venue_order_id = "v-1";
  instrument_id = btc_usdt;
  side = OrderSide.buy;
  last_px = price 10000;
  last_qty = quantity 2000;
  fee = record { raw = pos 0; currency = usdt };
  liquidity = LiquiditySide.taker;
  ts_event = 4;
  ts_init = 4;
}

-- A trade at a time and a price.
abbrev pub trade : ℕ → ℕ → MarketEvent
trade ts px = MarketEvent.trade (record {
  instrument_id = btc_usdt;
  price = price px;
  size = quantity 1000;
  aggressor = OrderSide.buy;
  trade_id = "t";
  ts_event = ts;
  ts_init = ts;
})

-- Answers after 10 and fills all that is left, without slippage or fee.
abbrev pub model : BrokerageModel
model = record {
  latency_ns = λ k. 10;
  fill_price = λ o px range inst. px;
  fillable_qty = λ leaves volume inst. leaves;
  initial_queue_ahead = λ volume inst. quantity 0;
  fee = λ o px q l inst. record { raw = pos 0; currency = usdt };
}
