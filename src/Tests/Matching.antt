-- ===== src/Tests/Matching.antt =====
-- The theorems on the fills of the simulated venue at concrete inputs.

use coinext.Prelude.{
  ℕ, ◌+◌, ◌≤◌, ◌<◌, ◌^◌, ◌≡◌, refl, Bool, true, false, none, some, Option, List, [], ◌∷◌, arith,
  All, inl,
}
use coinext.Prelude.Int.{pos, ◌+ℤ◌}
use coinext.Core.Price.{Price}
use coinext.Core.Quantity.RoundTrip.{IsValid}
use coinext.Model.Enums.{OrderType, sell, taker}
use coinext.Model.Order
use coinext.Model.Order.{Order}
use coinext.Cache.{Cache}
use coinext.Sim.Brokerage.{DefaultBrokerageModel, brokerage_model, default_model}
use coinext.Sim.Brokerage.Bounded.{default-IsBounded}
use coinext.Tests.Rounding.{sample_rounds}
use coinext.Sim.Intake.{Resting, TrailState, new}
use coinext.Sim.Tick.{Tick, Decision}
use coinext.Sim.Matching.{decide, within}
use coinext.Sim.Matching.Sizes.{IsBounded, IsPart-self}
use coinext.Sim.Matching.Limits.{decide-within}
use coinext.Sim.Matching.Trailing.{NoLooser}
use coinext.Sim.Market.{write_back}
use coinext.Sim.Market.Sizes.{filled_in}
use coinext.Sim.Market.Trails.{Trails, trail_tightens}
use coinext.Sim.Market.Overfill.{
  Call, submits, moves, drains, run, held, ordered, IsProper, never_overfills,
}
use coinext.Tests.Sample.{trade, sample_decimals, btc_usdt, price, quantity, pair, init, model}

abbrev cache : Cache
cache = record {
  instruments = (btc_usdt, pair) ∷ [];
  quotes = [];
  marks = (btc_usdt, price 10000) ∷ [];
  order_books = [];
  orders = [];
  positions = [];
  account = none;
}

valid : (n : ℕ) → n < 2 ^ 63 → IsValid (quantity n)
valid n h = record { nonneg = omega arith; fits_i64 = h; supported = omega arith }

model-IsBounded : IsBounded model
model-IsBounded leaves v inst w = IsPart-self leaves w

-- A market order for 2.000 that the next trade fills, and the drain of its reports.
abbrev calls : List Call
calls = submits 10 cache (Order.new "s" init) ∷ moves 20 cache (trade 20 10100) ∷ drains 40 ∷ []

proper : All IsProper calls
unfolding Order.new
proper = (valid 2000 (omega arith), (tt, (tt, tt)))

never_overfills_example :
    filled_in "c-1" (run model calls new).1 + held "c-1" (run model calls new).0
    ≤ ordered "c-1" calls
never_overfills_example = never_overfills model "c-1" calls model-IsBounded proper

abbrev tick : Tick
tick = record {
  low = price 9800;
  high = price 10200;
  close = price 10100;
  open_px = price 9900;
  volume = none;
}

abbrev resting : Order → Option TrailState → Bool → Resting
resting o trail pending = record {
  order = o;
  remaining = quantity 2000;
  queue_ahead = none;
  venue_order_id = "v";
  trail = trail;
  pending_open = pending;
}

abbrev limit_buy : Order
limit_buy = Order.new "s" (record init { order_type = OrderType.limit; price = some (price 10000) })

abbrev trailing_sale : Order
trailing_sale = Order.new "s" (record init {
  side = sell;
  order_type = OrderType.trailing_stop_market;
  trigger = some (price 9700);
})

-- A limit of 100.00, marketable when it was taken, fills at the open of 99.00.
abbrev at_open : Decision
at_open = record {
  fill_px = price 9900;
  fill_qty = quantity 2000;
  new_queue = none;
  liquidity = taker;
}

opens : (decide model pair tick btc_usdt (resting limit_buy none true)).decision ≡ some at_open
unfolding decide Order.new
opens = refl

limit_price : limit_buy.price ≡ some (price 10000)
unfolding Order.new
limit_price = refl

decide-within_example : within limit_buy.side at_open.fill_px (price 10000) ≡ true
decide-within_example =
    decide-within model pair tick (resting limit_buy none true) (price 10000) btc_usdt limit_price
      (inl refl) opens

-- A trailing sale at an offset of 1.00 from an extreme of 98.00.
abbrev track : TrailState
track = record { offset = price 100; extreme = price 9800 }

abbrev trailing : Resting
trailing = resting trailing_sale (some track) false

tracks : Trails trailing track (price 9700)
unfolding Order.new ◌+ℤ◌
tracks = record { tracked = refl; armed = refl; tight = refl }

trail_tightens_example :
    let s = write_back (decide model pair tick btc_usdt trailing) trailing in
    (x q : Price) × Trails s (record track { extreme = x }) q
    × NoLooser trailing.order.side (price 9700) q
trail_tightens_example = trail_tightens model pair tick btc_usdt trailing track (price 9700) tracks

-- A tenth of the volume of an event.
abbrev tenth : DefaultBrokerageModel
unfolding default_model
tenth = record default_model { participation_rate = (pos 1, 1) }

default-IsBounded_example : IsBounded (brokerage_model tenth)
default-IsBounded_example = default-IsBounded sample_rounds tenth
