-- ===== src/Model/OrderBook/Best.antt =====
-- foundation/crates/coinext-model/src/order_book.rs: the invariant of a book, and its best levels.
use coinext.Prelude.{
  Bool-cases, Option-cases, inl, inr, ◌≡◌, ◌≢◌, refl, subst, ◌-◌, ◌/◌, ◌≤◌, ◌<◌, ◌+◌, ◌^◌, none,
  some, [], ◌∷◌, All, arith,
}
use mathlib.Core.Option.{some-injective}
use coinext.Prelude.Int.{ℤ, pos, beq_ℤ, ◌≤ℤ◌, pos_part, ◌+ℤ◌, ◌-ℤ◌}
use coinext.Prelude.SortedMap
use coinext.Core.Price
use coinext.Core.Price.{Price}
use coinext.Core.Price.RoundTrip
use coinext.Core.Quantity.{Quantity}
use coinext.Model.Enums.{BookAction, buy, sell, add, update, delete, clear}
use coinext.Model.MarketData.{OrderBookDelta}
use coinext.Model.OrderBook.{
  OrderBook, Levels, new, apply, is_stale, set_level, change_levels, best_bid, best_ask, price, mid,
  spread,
}
use coinext.Model.OrderBook.Levels.{view, with_precision}

-- A level: a raw price that is an i64 and not negative, and a size that is not zero.
abbrev pub IsLevel : ℤ × Quantity → Type 0
IsLevel e = (pos 0 ≤ℤ e.0) × (pos_part e.0 < 2 ^ 63) × (e.1.raw ≢ pos 0)

pub record IsValid (b : OrderBook) : Type 0 where
  pub bids_sorted : SortedMap.IsSorted b.bids
  pub asks_sorted : SortedMap.IsSorted b.asks
  pub bids_levels : All IsLevel b.bids
  pub asks_levels : All IsLevel b.asks
  pub supported : b.precision ≤ Price.max_precision

pub new-IsValid : (id : _) → IsValid (new id)
unfolding new
new-IsValid id = record {
  bids_sorted = tt;
  asks_sorted = tt;
  bids_levels = tt;
  asks_levels = tt;
  supported = omega arith;
}

abbrev IsGood : Levels → Type 0
IsGood l = SortedMap.IsSorted l × All IsLevel l

set_level-IsGood :
    (d : OrderBookDelta) (l : Levels)
    → RoundTrip.IsValid d.price
    → IsGood l
    → IsGood (set_level d l)
unfolding set_level
set_level-IsGood d l v g = elim (Bool-cases (beq_ℤ d.size.raw (pos 0))) [
  | inl gone ↦
      rw gone (
        SortedMap.remove-IsSorted d.price.raw l g.0,
        SortedMap.All-remove IsLevel d.price.raw l g.1,
      )
  | inr kept ↦ rw kept (
    SortedMap.insert-IsSorted d.price.raw d.size l g.0,
    SortedMap.All-insert IsLevel d.price.raw d.size l (ground arith) g.1,
  )
]

remove-IsGood : (k : ℤ) (l : Levels) → IsGood l → IsGood (SortedMap.remove k l)
remove-IsGood k l g = (SortedMap.remove-IsSorted k l g.0, SortedMap.All-remove IsLevel k l g.1)

change_levels-IsValid :
    (a : BookAction) (b : OrderBook) (d : OrderBookDelta)
    → RoundTrip.IsValid d.price
    → IsValid b
    → IsValid (change_levels a b d)
unfolding change_levels
change_levels-IsValid clear b d v w = ground arith
change_levels-IsValid add b d v w =
    ground (arith, set_level-IsGood d b.bids v, set_level-IsGood d b.asks v)
change_levels-IsValid update b d v w =
    ground (arith, set_level-IsGood d b.bids v, set_level-IsGood d b.asks v)
change_levels-IsValid delete b d v w =
    ground (arith, remove-IsGood d.price.raw b.bids, remove-IsGood d.price.raw b.asks)

-- Every delta with a valid price keeps both sides in order of their prices, without a level of size
-- zero.
pub apply-IsValid :
    (b : OrderBook) (d : OrderBookDelta)
    → RoundTrip.IsValid d.price
    → IsValid b
    → IsValid (apply b d).0
unfolding apply
apply-IsValid b d v w = elim (Bool-cases (is_stale b d)) [
  | inl stale ↦ rw stale w
  | inr fresh ↦
      let c = with_precision b d in
      let good : IsValid c = record {
        bids_sorted = w.bids_sorted;
        asks_sorted = w.asks_sorted;
        bids_levels = w.bids_levels;
        asks_levels = w.asks_levels;
        supported = ground arith;
      } in
      let done = change_levels-IsValid d.action c d v good in
      rw fresh (record {
        bids_sorted = done.bids_sorted;
        asks_sorted = done.asks_sorted;
        bids_levels = done.bids_levels;
        asks_levels = done.asks_levels;
        supported = done.supported;
      })
]

price_of_level :
    (b : OrderBook) (raw : ℤ)
    → b.precision ≤ Price.max_precision
    → pos 0 ≤ℤ raw
    → price b raw ≡ record { raw = raw; precision = b.precision }
unfolding price Price.from_raw
price_of_level b raw s h = ground arith

first-none : (l : Levels) (k : ℤ) → SortedMap.first? l ≡ none → SortedMap.get k l ≡ none
unfolding SortedMap.get
first-none [] k h = refl
first-none (e ∷ l) k h = absurd (ground arith)

All-first :
    (P : ℤ × Quantity → Type 0) (l : Levels) (e : ℤ × Quantity)
    → All P l
    → SortedMap.first? l ≡ some e
    → P e
All-first P [] e a h = absurd (ground arith)
All-first P (f ∷ l) e a h = subst P (some-injective _ _ h) a.0

module _ (b : OrderBook) (v : IsValid b) where
  -- The best bid is a level of the book, and no bid is above it; without one there are no bids.
  pub best_bid_lem :
      (best_bid b ≡ none → (p : ℤ) → view b buy p ≡ none)
      × ((px : Price) (q : Quantity)
          → best_bid b ≡ some (px, q)
          → (view b buy px.raw ≡ some q)
            × (px.precision ≡ b.precision)
            × ((p : ℤ) (r : Quantity) → view b buy p ≡ some r → p ≤ℤ px.raw))
  unfolding best_bid view
  best_bid_lem = elim (Option-cases (SortedMap.last? b.bids)) [
    | inl e ↦ (λ h p. SortedMap.last-none b.bids p e, λ px q h. absurd (ground arith))
    | inr ((raw, r), e) ↦
        let top = SortedMap.All-last IsLevel b.bids (raw, r) v.bids_levels e in
        let found = SortedMap.last-greatest b.bids v.bids_sorted e in
        let exact = price_of_level b raw v.supported top.0 in
        (
          λ h p. absurd (ground arith),
          λ px q h. (
            ground (arith, exact, found.0),
            ground (arith, exact),
            λ p s g. ground (arith, exact, found.1 p s g),
          ),
        )
  ]

  -- The best ask is a level of the book, and no ask is below it; without one there are no asks.
  pub best_ask_lem :
      (best_ask b ≡ none → (p : ℤ) → view b sell p ≡ none)
      × ((px : Price) (q : Quantity)
          → best_ask b ≡ some (px, q)
          → (view b sell px.raw ≡ some q)
            × (px.precision ≡ b.precision)
            × ((p : ℤ) (r : Quantity) → view b sell p ≡ some r → px.raw ≤ℤ p))
  unfolding best_ask view SortedMap.get
  best_ask_lem = elim (Option-cases (SortedMap.first? b.asks)) [
    | inl e ↦ (λ h p. first-none b.asks p e, λ px q h. absurd (ground arith))
    | inr ((raw, r), e) ↦
        let top = All-first IsLevel b.asks (raw, r) v.asks_levels e in
        let found = SortedMap.first-least b.asks v.asks_sorted e in
        let exact = price_of_level b raw v.supported top.0 in
        (
          λ h p. absurd (ground arith),
          λ px q h. (
            ground (arith, exact, found.0),
            ground (arith, exact),
            λ p s g. ground (arith, exact, found.1 p s g),
          ),
        )
  ]

  -- On a book that is not crossed, whose two best raw prices add up to an i64, the mid price lies
  -- between them and the spread is their difference.
  pub mid_spread_lem :
      (bid ask : Price) (q r : Quantity)
      → best_bid b ≡ some (bid, q)
      → best_ask b ≡ some (ask, r)
      → RoundTrip.IsValid bid
      → RoundTrip.IsValid ask
      → bid.raw ≤ℤ ask.raw
      → pos_part bid.raw + pos_part ask.raw < 2 ^ 63
      → (m s : Price) × (mid b ≡ some m)
        × (spread b ≡ some s)
        × (bid.raw ≤ℤ m.raw)
        × (m.raw ≤ℤ ask.raw)
        × (bid.raw +ℤ s.raw ≡ ask.raw)
  unfolding mid spread Price.from_raw ◌+ℤ◌ ◌-ℤ◌
  mid_spread_lem bid ask q r eb ea vb va le small = (
    record { raw = pos ((pos_part bid.raw + pos_part ask.raw) / 2); precision = b.precision },
    record { raw = pos (pos_part ask.raw - pos_part bid.raw); precision = b.precision },
    ground (arith, v.supported),
    ground (arith, v.supported),
    ground arith,
    ground arith,
    ground arith,
  )
