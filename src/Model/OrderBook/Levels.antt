-- ===== src/Model/OrderBook/Levels.antt =====
-- foundation/crates/coinext-model/src/order_book.rs: the book as a function from prices to sizes,
-- and what a delta does to it.
use coinext.Prelude.{
  ℕ, Bool, not, ◌&&◌, Bool-cases, inl, inr, true, false, ◌≡◌, refl, ap, ◌∙◌, Option, none, some,
  List, [], ◌∷◌, arith, if◌then◌else◌, ltb, nat_beq,
}
use coinext.Prelude.Int.{ℤ, pos, beq_ℤ}
use coinext.Prelude.SortedMap
use coinext.Core.Quantity.{Quantity}
use coinext.Model.Enums.{BookAction, OrderSide, buy, sell, add, update, delete, clear}
use coinext.Model.MarketData.{OrderBookDelta}
use coinext.Model.OrderBook.{
  OrderBook, Levels, apply, is_stale, is_clear, side, set_level, change_levels, next_sequence,
}

-- The abstract book: the size at each price of each side.
abbrev pub View : Type 0
View = OrderSide → ℤ → Option Quantity

unfoldable pub view : OrderBook → View
view b s p = SortedMap.get p (side b s)

abbrev side_beq : OrderSide → OrderSide → Bool
side_beq buy buy = true
side_beq sell sell = true
side_beq _ _ = false

-- What the deltas promise: `Clear` leaves no level; `Add` and `Update` set the size at a price, and
-- remove the level if the size is zero; `Delete` removes it.
abbrev size_after : BookAction → Quantity → Option Quantity
size_after add q = if beq_ℤ q.raw (pos 0) then none else some q
size_after update q = if beq_ℤ q.raw (pos 0) then none else some q
size_after delete q = none
size_after clear q = none

pub view_after : View → OrderBookDelta → View
view_after v d s p =
    if is_clear d.action
    then none
    else if side_beq d.side s
    then if beq_ℤ d.price.raw p then size_after d.action d.size else v s p
    else v s p

get-set_level :
    (d : OrderBookDelta) (p : ℤ) (l : Levels)
    → SortedMap.get p (set_level d l) ≡ (
        if beq_ℤ d.price.raw p
        then if beq_ℤ d.size.raw (pos 0) then none else some d.size
        else SortedMap.get p l)
unfolding set_level
get-set_level d p l =
    ground
      (arith, SortedMap.get-insert d.price.raw p d.size l, SortedMap.get-remove d.price.raw p l)

view-change_levels :
    (a : BookAction) (b : OrderBook) (d : OrderBookDelta) (s : OrderSide) (p : ℤ)
    → d.action ≡ a
    → view (change_levels a b d) s p ≡ view_after (view b) d s p
unfolding view view_after change_levels SortedMap.get
view-change_levels clear b d s p e = ground arith
view-change_levels add b d s p e =
    ground (arith, get-set_level d p b.bids, get-set_level d p b.asks)
view-change_levels update b d s p e =
    ground (arith, get-set_level d p b.bids, get-set_level d p b.asks)
view-change_levels delete b d s p e =
    ground
      (arith, SortedMap.get-remove d.price.raw p b.bids, SortedMap.get-remove d.price.raw p b.asks)

abbrev pub with_precision : OrderBook → OrderBookDelta → OrderBook
with_precision b d = record b {
  precision = if nat_beq b.precision 0 then d.price.precision else b.precision;
}

-- A stale delta changes nothing and is reported as skipped. Any other is reported as applied, and
-- makes of the view of the book what the delta promises.
pub apply_lem :
    (b : OrderBook) (d : OrderBookDelta)
    → (is_stale b d ≡ true → apply b d ≡ (b, false))
      × (is_stale b d ≡ false
          → ((apply b d).1 ≡ true) × (view (apply b d).0 ≡ view_after (view b) d))
unfolding apply view view_after
apply_lem b d = (
  λ stale. rw stale refl,
  λ fresh. rw fresh (refl, λ i s p. view-change_levels d.action (with_precision b d) d s p refl i),
)

apply_sequence :
    (b : OrderBook) (d : OrderBookDelta)
    → is_stale b d ≡ false
    → ((apply b d).0.last_sequence ≡ next_sequence b d) × ((apply b d).0.seq_set ≡ true)
unfolding apply
apply_sequence b d fresh = rw fresh (refl, refl)

pub apply_all : OrderBook → List OrderBookDelta → OrderBook
apply_all b [] = b
apply_all b (d ∷ ds) = apply_all (apply b d).0 ds

-- The deltas of a list whose sequence is not below that of one before it since the last `Clear`.
pub view_all : View → ℕ → Bool → List OrderBookDelta → View
view_all v last set [] = v
view_all v last set (d ∷ ds) =
    if not (is_clear d.action) && (set && ltb d.sequence last)
    then view_all v last set ds
    else view_all (view_after v d)
        (if is_clear d.action then d.sequence else if ltb last d.sequence then d.sequence else last)
        true ds

-- The book refines the abstract one: after any deltas its view is the fold of what those deltas
-- promise that are not stale.
pub view-apply_all :
    (b : OrderBook) (ds : List OrderBookDelta)
    → view (apply_all b ds) ≡ view_all (view b) b.last_sequence b.seq_set ds
unfolding apply_all view_all is_stale
view-apply_all b [] = refl
view-apply_all b (d ∷ ds) = elim (Bool-cases (is_stale b d)) [
  | inl stale ↦ rw (stale, (apply_lem b d).0 stale) (view-apply_all b ds)
  | inr fresh ↦
      let (_, seen) = (apply_lem b d).1 fresh in
      let (last, set) = apply_sequence b d fresh in
      rw fresh (view-apply_all (apply b d).0 ds ∙ (λ i. view_all (seen i) (last i) (set i) ds))
]

-- A `Clear` and what follows it build the same book, whatever levels and sequence came before.
pub snapshot_rebuilds :
    (b c : OrderBook) (d : OrderBookDelta) (ds : List OrderBookDelta)
    → d.action ≡ clear
    → b.instrument_id ≡ c.instrument_id
    → b.precision ≡ c.precision
    → apply_all b (d ∷ ds) ≡ apply_all c (d ∷ ds)
unfolding apply_all apply change_levels
snapshot_rebuilds b c d ds e i p = ap (λ o. apply_all o ds) (ground arith)
