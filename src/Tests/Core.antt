-- ===== src/Tests/Core.antt =====
-- foundation/crates/coinext-core: the theorems on prices, sizes, currencies and the clock at concrete
-- inputs.
use coinext.Prelude.{ℕ, ◌≡◌, refl, ◌<◌, ◌^◌, false, All, List, [], ◌∷◌, arith, keep}
use coinext.Prelude.Int.{pos}
use coinext.Prelude.Maps.{nat_eq, contains}
use coinext.Core.Error.{ok}
use coinext.Core.Price.{Price}
use coinext.Core.Price.RoundTrip as PriceTrip
use coinext.Core.Quantity.{Quantity}
use coinext.Core.Quantity.RoundTrip as QuantityTrip
use coinext.Core.Currency
use coinext.Core.Currency.{Currency}
use coinext.Core.Clock
use coinext.Core.Clock.{HistoricalClock, TimerEvent}
use coinext.Core.Clock.Due
use coinext.Core.Clock.Calls.{Call, sets, cancels, pops, run}
use coinext.Core.Clock.Calls.Waits.{Spares, pop_due-run}
use coinext.Tests.Sample.{sample_decimals}
use mathlib.Core.List.{Memᴰ}

abbrev price : ℕ → Price
price n = record { raw = pos n; precision = 2 }

price-IsValid : (n : ℕ) → n < 2 ^ 63 → PriceTrip.IsValid (price n)
price-IsValid n h = record { nonneg = omega arith; fits_i64 = h; supported = omega arith }

abbrev quantity : ℕ → Quantity
quantity n = record { raw = pos n; precision = 3 }

quantity-IsValid : (n : ℕ) → n < 2 ^ 63 → QuantityTrip.IsValid (quantity n)
quantity-IsValid n h = record { nonneg = omega arith; fits_i64 = h; supported = omega arith }

-- "BTC"
abbrev btc_code : List ℕ
btc_code = 66 ∷ 84 ∷ 67 ∷ []

abbrev btc : Currency
btc = record { code = 66 ∷ 84 ∷ 67 ∷ 0 ∷ 0 ∷ 0 ∷ 0 ∷ 0 ∷ []; precision = 8 }

abbrev precision_of_btc : ℕ
precision_of_btc = 8

btc-new : Currency.new btc_code 8 ≡ ok btc
unfolding Currency.new
btc-new = refl

-- A clock with one timer, of id 1 at time 5.
abbrev one_timer : HistoricalClock
one_timer = record {
  now = 0;
  heap = (5, 1) ∷ [];
  cancelled = [];
  names = (1, "funding") ∷ [];
  next_id = 2;
}

one_timer-IsValid : Due.IsValid one_timer
one_timer-IsValid = record { sorted = (tt, tt); distinct = (tt, tt); below = (omega arith, tt) }

pop_due_lem_example :
    ((Clock.pop_due one_timer 7).1 ≡ Due.fires 7 [] ((1, "funding") ∷ []) ((5, 1) ∷ []))
    × ((Clock.pop_due one_timer 7).0.heap ≡ keep (Due.is_later 7) ((5, 1) ∷ []))
pop_due_lem_example = Due.pop_due_lem one_timer 7 one_timer-IsValid

not_cancelled : contains 2 one_timer.cancelled ≡ false
unfolding contains
not_cancelled = refl

-- One timer is set, one cancelled, and a frontier before the time popped.
abbrev between : List Call
between = sets "late" 9 ∷ cancels 1 ∷ pops 5 ∷ []

between-Spares : All (Spares 2 6) between
unfolding Spares
between-Spares = (tt, (ground arith, (omega arith, tt)))

pop_due-run_example :
    Memᴰ
      (record { id = 2; name = "roll"; ts_event = 6 })
      (Clock.pop_due (run (Clock.set_timer one_timer "roll" 6).0 between) 8).1
pop_due-run_example =
    pop_due-run one_timer "roll" 6 8 between (omega arith) one_timer-IsValid not_cancelled
      between-Spares (omega arith)
