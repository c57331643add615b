-- ===== src/Tests/Model/Books.antt =====
-- foundation/crates/coinext-model: the theorems on quotes, books, positions and accounts at concrete
-- inputs.
use coinext.Prelude.{ℕ, ◌-◌, ◌≡◌, refl, ◌<◌, ◌^◌, true, some, [], ◌∷◌, arith, ◌⊎◌}
use coinext.Prelude.Int.{pos, negsuc, ◌+ℤ◌, ◌-ℤ◌}
use coinext.Prelude.SortedMap
use coinext.Core.Error.{ok, err, out_of_range}
use coinext.Core.Price
use coinext.Core.Price.{Price}
use coinext.Core.Price.RoundTrip as PriceTrip
use coinext.Core.Quantity
use coinext.Core.Quantity.{Quantity}
use coinext.Core.Money
use coinext.Core.Money.{Money}
use coinext.Prelude.Maps.{get}
use coinext.Model.Fill.{Fill}
use coinext.Model.Enums.{buy, add, clear, flat, long}
use coinext.Model.MarketData.{OrderBookDelta}
use coinext.Model.OrderBook
use coinext.Model.OrderBook.{OrderBook}
use coinext.Model.OrderBook.Levels.{view, view_all, apply_all, view-apply_all}
use coinext.Model.OrderBook.Best as Best
use coinext.Model.Position
use coinext.Model.Position.{Position}
use coinext.Model.Position.Invariant as PositionInvariant
use coinext.Model.Position.Effects.{new_size, new_pnl, apply_fill_torn}
use coinext.Model.Instrument.{settlement_currency, multiplier, is_inverse}
use coinext.Model.Position.Booking.Fills.{Folded, apply_fill-Folded}
use coinext.Model.Position.Booking.Folds.{IsHeld, is_long}
use coinext.Tests.Signs.{sample_signs}
use coinext.Model.Enums.{sell}
use coinext.Model.Account
use coinext.Model.Account.{AccountState}
use coinext.Model.Account.Balances.{IsKeyed}
use coinext.Tests.Sample.{sample_decimals, btc_usdt, usdt, price, quantity, pair, fill}

price-IsValid : (n : ℕ) → n < 2 ^ 63 → PriceTrip.IsValid (price n)
price-IsValid n h = record { nonneg = omega arith; fits_i64 = h; supported = omega arith }

-- A delta at 100.00 and one that clears the book.
abbrev bid_delta : OrderBookDelta
bid_delta = record {
  instrument_id = btc_usdt;
  action = add;
  side = buy;
  price = price 10000;
  size = quantity 5;
  sequence = 8;
  ts_event = 1;
  ts_init = 1;
}

abbrev clear_delta : OrderBookDelta
clear_delta = record bid_delta { action = clear; sequence = 3 }

-- Two levels a side.
abbrev book : OrderBook
book = record {
  instrument_id = btc_usdt;
  bids = (pos 9990, quantity 4) ∷ (pos 10000, quantity 5) ∷ [];
  asks = (pos 10010, quantity 6) ∷ (pos 10020, quantity 7) ∷ [];
  precision = 2;
  last_sequence = 7;
  seq_set = true;
  ts_last = 1;
}

book-IsValid : Best.IsValid book
book-IsValid = ground arith

view-apply_all_example :
    view (apply_all book (bid_delta ∷ clear_delta ∷ []))
    ≡ view_all (view book) 7 true (bid_delta ∷ clear_delta ∷ [])
view-apply_all_example = view-apply_all book (bid_delta ∷ clear_delta ∷ [])

abbrev other_book : OrderBook
other_book = record book { bids = []; asks = []; last_sequence = 1 }

apply-IsValid_example : Best.IsValid (OrderBook.apply book bid_delta).0
apply-IsValid_example =
    Best.apply-IsValid book bid_delta (price-IsValid 10000 (omega arith)) book-IsValid

best_bid_is : OrderBook.best_bid book ≡ some (price 10000, quantity 5)
unfolding OrderBook.best_bid SortedMap.last? Price.from_raw OrderBook.price
best_bid_is = refl

best_ask_is : OrderBook.best_ask book ≡ some (price 10010, quantity 6)
unfolding OrderBook.best_ask Price.from_raw OrderBook.price
best_ask_is = refl

abbrev no_position : Position
no_position = record {
  position_id = "p";
  instrument_id = btc_usdt;
  side = flat;
  quantity = quantity 0;
  avg_px_open = price 0;
  realized_pnl = record { raw = pos 0; currency = usdt };
  size_precision = 3;
  price_precision = 2;
}

no_position-IsValid : PositionInvariant.IsValid no_position
no_position-IsValid = ground arith

apply_fill-IsValid_example :
    PositionInvariant.Sound no_position (Position.apply_fill no_position fill pair).0
apply_fill-IsValid_example =
    PositionInvariant.apply_fill-IsValid no_position fill pair no_position-IsValid

abbrev bought : Position
bought = record no_position { side = long; quantity = quantity 2000; avg_px_open = price 10000 }

buys : Position.apply_fill no_position fill pair ≡ (bought, ok tt)
unfolding Position.apply_fill settlement_currency ◌-ℤ◌ Position.signed Money.amount
    Quantity.from_decimal Position.signed_fill Quantity.as_decimal ◌+ℤ◌ Price.from_decimal
    Price.as_decimal
buys = refl

-- Half of it is sold a unit higher, with a fee.
abbrev selling : Fill
selling = record fill {
  side = sell;
  last_px = price 10100;
  last_qty = quantity 1000;
  fee = record { raw = pos 10; currency = usdt };
}

abbrev halved : Position
halved = record bought {
  quantity = quantity 1000;
  realized_pnl = record { raw = pos 90; currency = usdt };
}

sells_half : Position.apply_fill bought selling pair ≡ (halved, ok tt)
unfolding Position.apply_fill settlement_currency ◌-ℤ◌ Position.signed Money.amount
    Quantity.from_decimal Position.signed_fill Quantity.as_decimal ◌+ℤ◌ Price.from_decimal
    Price.as_decimal Money.from_decimal Money.checked_add Position.pnl_per_qty multiplier is_inverse
sells_half = refl

bought-IsHeld : IsHeld bought
bought-IsHeld =
    is_long refl (record { above = omega arith; fits_i64 = omega arith; supported = omega arith })

apply_fill-Folded_example : Folded bought halved selling pair
apply_fill-Folded_example =
    apply_fill-Folded sample_signs bought selling pair halved bought-IsHeld
      (record { above = omega arith; fits_i64 = omega arith; supported = omega arith }) sells_half

-- A position of the largest size, and a fill with a fee that would add to it: the fee is booked, and
-- the size is not changed.
abbrev largest : Position
largest = record bought { quantity = quantity (2 ^ 63 - 1) }

abbrev charged_fill : Fill
charged_fill = record fill { fee = record { raw = pos 100; currency = usdt } }

abbrev charged : Position
charged = record largest { realized_pnl = record { raw = negsuc 99; currency = usdt } }

fails : Position.apply_fill largest charged_fill pair ≡ (charged, err out_of_range)
unfolding Position.apply_fill settlement_currency ◌-ℤ◌ Position.signed Quantity.as_decimal
    Position.signed_fill Money.amount Money.from_decimal Money.checked_add ◌+ℤ◌
    Quantity.from_decimal
fails = refl

apply_fill_torn_example :
    (charged ≡ largest)
    ⊎ ((r : Position) × (new_pnl largest charged_fill pair ≡ ok r)
        × (charged.realized_pnl ≡ r.realized_pnl)
        × (long ≡ Position.side_of (new_size largest charged_fill))
        × (price 10000 ≡ price 10000))
apply_fill_torn_example = apply_fill_torn largest charged out_of_range charged_fill pair fails

abbrev account : AccountState
account = record {
  account_id = "a";
  balances = [];
  margin_used = record { raw = pos 0; currency = usdt };
}

account-IsKeyed : IsKeyed account
unfolding Account.balance get Money.zero
account-IsKeyed c = refl

abbrev fee : Money
fee = record { raw = negsuc 99; currency = usdt }

abbrev after : AccountState
after = record account { balances = (usdt, record { raw = negsuc 99; currency = usdt }) ∷ [] }

adjusts : Account.adjust account fee ≡ ok after
unfolding Account.adjust Money.checked_add Money.zero ◌+ℤ◌
adjusts = refl
