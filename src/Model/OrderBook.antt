-- ===== src/Model/OrderBook.antt =====
-- foundation/crates/coinext-model/src/order_book.rs: the price-level book folded from deltas.
pub mod Levels
pub mod Best
use coinext.Prelude.{
  ℕ, Bool, true, false, not, ◌&&◌, Option, none, some, List, [], ◌∷◌, ltb, nat_beq, if◌then◌else◌,
  ◌+◌, ◌-◌, ◌^◌, length, map,
}
use coinext.Prelude.Int.{ℤ, pos, beq_ℤ, saturate, half_ℤ, ◌+ℤ◌, ◌-ℤ◌}
use coinext.Prelude.SortedMap
use coinext.Core.Error.{unwrap_or}
use coinext.Core.Price
use coinext.Core.Price.{Price}
use coinext.Core.Quantity.{Quantity}
use coinext.Core.Time.{UnixNanos}
use coinext.Model.Enums.{BookAction, OrderSide, buy, sell, add, update, delete, clear}
use coinext.Model.Ids.{InstrumentId}
use coinext.Model.MarketData.{OrderBookDelta, QuoteTick}
use mathlib.Core.List.{reverse}

abbrev pub Levels : Type 0
Levels = List (ℤ × Quantity)

pub record OrderBook : Type 0 where
  pub instrument_id : InstrumentId
  pub bids : Levels
  pub asks : Levels
  pub precision : ℕ
  pub last_sequence : ℕ
  pub seq_set : Bool
  pub ts_last : UnixNanos

unfoldable pub new : InstrumentId → OrderBook
new id = record {
  instrument_id = id;
  bids = [];
  asks = [];
  precision = 0;
  last_sequence = 0;
  seq_set = false;
  ts_last = 0;
}

abbrev pub is_clear : BookAction → Bool
is_clear clear = true
is_clear _ = false

unfoldable pub is_stale : OrderBook → OrderBookDelta → Bool
is_stale b d = not (is_clear d.action) && (b.seq_set && ltb d.sequence b.last_sequence)

-- `side_mut` and the change of its map.
abbrev pub side : OrderBook → OrderSide → Levels
side b buy = b.bids
side b sell = b.asks

abbrev change_side : OrderBook → OrderSide → (Levels → Levels) → OrderBook
change_side b buy f = record b { bids = f b.bids }
change_side b sell f = record b { asks = f b.asks }

set_level : OrderBookDelta → Levels → Levels
set_level d levels =
    if beq_ℤ d.size.raw (pos 0)
    then SortedMap.remove d.price.raw levels
    else SortedMap.insert d.price.raw d.size levels

-- The `match` on the action.
change_levels : BookAction → OrderBook → OrderBookDelta → OrderBook
unfolding set_level
change_levels clear b d = record b { bids = []; asks = [] }
change_levels add b d = change_side b d.side (set_level d)
change_levels update b d = change_side b d.side (set_level d)
change_levels delete b d = change_side b d.side (SortedMap.remove d.price.raw)

abbrev next_sequence : OrderBook → OrderBookDelta → ℕ
next_sequence b d =
    if is_clear d.action
    then d.sequence
    else if ltb b.last_sequence d.sequence
    then d.sequence
    else b.last_sequence

unfoldable pub apply : OrderBook → OrderBookDelta → OrderBook × Bool
unfolding is_stale change_levels
apply b d =
    let precision = if nat_beq b.precision 0 then d.price.precision else b.precision in
    let c = change_levels d.action (record b { precision = precision }) d in
    if is_stale b d then (b, false) else (
      record c { last_sequence = next_sequence b d; seq_set = true; ts_last = d.ts_event },
      true,
    )

-- `OrderBook::price`
unfoldable pub price : OrderBook → ℤ → Price
price b raw = unwrap_or (Price.from_raw raw b.precision) (Price.zero b.precision)

abbrev at_price : OrderBook → Option (ℤ × Quantity) → Option (Price × Quantity)
at_price b none = none
at_price b (some (raw, q)) = some (price b raw, q)

unfoldable pub best_bid : OrderBook → Option (Price × Quantity)
best_bid b = at_price b (SortedMap.last? b.bids)

unfoldable pub best_ask : OrderBook → Option (Price × Quantity)
best_ask b = at_price b (SortedMap.first? b.asks)

abbrev on_both {ℓ} :
    {A : Type ℓ}
    → (Price × Quantity → Price × Quantity → A)
    → Option (Price × Quantity)
    → Option (Price × Quantity)
    → Option A
on_both f (some bid) (some ask) = some (f bid ask)
on_both f _ _ = none

unfoldable pub mid : OrderBook → Option Price
unfolding best_bid best_ask
mid b =
    on_both
      (λ (bid ask : Price × Quantity).
        unwrap_or (Price.from_raw (half_ℤ (saturate 63 (bid.0.raw +ℤ ask.0.raw))) b.precision)
          bid.0)
      (best_bid b) (best_ask b)

unfoldable pub spread : OrderBook → Option Price
unfolding best_bid best_ask
spread b =
    on_both
      (λ (bid ask : Price × Quantity).
        unwrap_or (Price.from_raw (saturate 63 (ask.0.raw -ℤ bid.0.raw)) b.precision)
          (Price.zero b.precision))
      (best_bid b) (best_ask b)

-- Best first.
unfoldable pub bids_of : OrderBook → List (Price × Quantity)
bids_of b = map (λ e. (price b e.0, e.1)) (reverse b.bids)

unfoldable pub asks_of : OrderBook → List (Price × Quantity)
asks_of b = map (λ e. (price b e.0, e.1)) b.asks

abbrev is_nil : Levels → Bool
is_nil [] = true
is_nil (e ∷ l) = false

unfoldable pub is_empty : OrderBook → Bool
is_empty b = is_nil b.bids && is_nil b.asks

unfoldable pub level_count : OrderBook → ℕ
level_count b = length b.bids + length b.asks

unfoldable pub to_quote : OrderBook → UnixNanos → Option QuoteTick
unfolding best_bid best_ask
to_quote b ts_init =
    on_both
      (λ (bid ask : Price × Quantity). record {
        instrument_id = b.instrument_id;
        bid = bid.0;
        ask = ask.0;
        bid_size = bid.1;
        ask_size = ask.1;
        ts_event = b.ts_last;
        ts_init = ts_init;
      })
      (best_bid b) (best_ask b)
