-- ===== src/Model/Order/Invariant.antt =====
-- foundation/crates/coinext-model/src/order.rs: what holds of every order that `apply` can reach.
use coinext.Prelude.{Bool, ◌^◌, ◌≡◌, ◌≢◌, ◌↔◌, inl, inr, ◌≤◌, ◌<◌, List, arith, none, true, false}
use coinext.Prelude.Int.{pos, ◌+ℤ◌, ◌-ℤ◌, ◌≤ℤ◌, ◌<ℤ◌, pos_part}
use coinext.Core.Error.{ok, Result-cases}
use coinext.Core.Decimal.{Decimals}
use coinext.Core.Quantity
use coinext.Model.Enums.{OrderStatus}
use coinext.Model.Ids.{StrategyId}
use coinext.Model.Fill.{Fill}
use coinext.Model.Order.{Order, Init, OrderEvent, new, apply, apply_fill, take_fill, leaves_qty}
use coinext.Model.Order.Replay.{feed, feed_inv, apply_fill-filled}

-- The statuses before the venue has accepted the order.
abbrev pub is_early : OrderStatus → Bool
is_early OrderStatus.initialized = true
is_early OrderStatus.submitted = true
is_early OrderStatus.denied = true
is_early _ = false

pub record IsValid (o : Order) : Type 0 where
  pub filled_nonneg : pos 0 ≤ℤ o.filled_qty.raw
  pub filled_fits : pos_part o.filled_qty.raw < 2 ^ 63
  pub accepted_unfilled : o.status ≡ OrderStatus.accepted → o.filled_qty.raw ≡ pos 0
  pub early_unfilled : is_early o.status ≡ true → o.filled_qty.raw ≡ pos 0
  pub early_unnamed : is_early o.status ≡ true → o.venue_order_id ≡ none
  pub priced : o.avg_px ≡ none → o.filled_qty.raw ≡ pos 0
  pub complete : o.status ≡ OrderStatus.filled → Quantity.is_zero (leaves_qty o) ≡ true

module _ ⦃d : Decimals⦄ where
  new-IsValid : (s : StrategyId) (i : Init) → IsValid (new s i)
  unfolding new Quantity.zero
  new-IsValid s i = ground arith

  apply_fill_lem :
      (o : Order) (f : Fill) {o' : Order}
      → apply_fill o f ≡ ok o'
      → (pos 0 ≤ℤ o'.filled_qty.raw) × (pos_part o'.filled_qty.raw < 2 ^ 63) × (o'.avg_px ≢ none)
  unfolding apply_fill Quantity.checked_add
  apply_fill_lem o f e = ground arith

  apply_fill_keeps :
      (o : Order) (f : Fill) {o' : Order}
      → apply_fill o f ≡ ok o'
      → (o'.quantity ≡ o.quantity) × (o'.filled_qty.precision ≡ o.filled_qty.precision)
  unfolding apply_fill Quantity.checked_add Quantity.from_raw
  apply_fill_keeps o f e = ground arith

  take_fill-IsValid :
      (o : Order) (f : Fill) (ev : OrderEvent) (o' : Order)
      → IsValid o
      → take_fill o f ev ≡ ok o'
      → IsValid o'
  unfolding take_fill leaves_qty
  take_fill-IsValid o f ev o' v e = elim (Result-cases (apply_fill o f)) [
    | inl (o'', p) ↦ ground (arith, apply_fill_lem o f p)
    | inr (x, p) ↦ ground arith
  ]

  pub apply_event-IsValid :
      (o : Order) (ev : OrderEvent) (o' : Order) → IsValid o → apply o ev ≡ ok o' → IsValid o'
  unfolding apply Quantity.is_positive
  apply_event-IsValid o (OrderEvent.partially_filled f) o' v e = take_fill-IsValid o f _ o' v e
  apply_event-IsValid o (OrderEvent.filled f) o' v e = take_fill-IsValid o f _ o' v e
  apply_event-IsValid o (OrderEvent.submitted ts) o' v e = ground arith
  apply_event-IsValid o ev o' v e = ground arith

  take_fill_id :
      (o : Order) (f : Fill) (ev : OrderEvent) {o' : Order}
      → take_fill o f ev ≡ ok o'
      → o'.client_order_id ≡ o.client_order_id
  unfolding take_fill apply_fill
  take_fill_id o f ev e = ground arith

  -- An order keeps its client order id.
  pub apply_id :
      (o : Order) (ev : OrderEvent) {o' : Order}
      → apply o ev ≡ ok o'
      → o'.client_order_id ≡ o.client_order_id
  unfolding apply
  apply_id o (OrderEvent.partially_filled f) e = take_fill_id o f _ e
  apply_id o (OrderEvent.filled f) e = take_fill_id o f _ e
  apply_id o (OrderEvent.submitted ts) e = ground arith
  apply_id o ev e = ground arith

  leaves_lem :
      (o : Order)
      → o.quantity.precision ≡ o.filled_qty.precision
      → o.quantity.precision ≤ 18
      → (pos 0 ≤ℤ o.quantity.raw) × (pos_part o.quantity.raw < 2 ^ 63)
      → (pos 0 ≤ℤ o.filled_qty.raw) × (pos_part o.filled_qty.raw < 2 ^ 63)
      → (Quantity.is_zero (leaves_qty o) ≡ true) ↔ (o.quantity.raw ≤ℤ o.filled_qty.raw)
  unfolding leaves_qty Quantity.checked_sub Quantity.is_zero Quantity.from_raw ◌-ℤ◌
  leaves_lem o p q a b = ground arith

  -- An order in status `Filled` has the ordered quantity.
  pub record Reached (o : Order) : Type 0 where
    pub all_filled :
        o.status ≡ OrderStatus.filled
        → o.quantity.precision ≡ o.filled_qty.precision
        → o.quantity.precision ≤ 18
        → (pos 0 ≤ℤ o.quantity.raw) × (pos_part o.quantity.raw < 2 ^ 63)
        → o.quantity.raw ≤ℤ o.filled_qty.raw

  IsValid-Reached : (o : Order) → IsValid o → Reached o
  IsValid-Reached o v = record {
    all_filled = λ f p q a. (leaves_lem o p q a (v.filled_nonneg, v.filled_fits)).0 (v.complete f);
  }

  -- Whatever events a new order is fed: the filled quantity is an i64 that is not negative, zero before
  -- the venue's acceptance and in status `Accepted`, and priced when it is not zero; an order in status
  -- `Filled` reports no quantity left, and it has reached the ordered quantity, if that is an i64 that is
  -- not negative, in the precision of the filled quantity and of at most 18 places.
  pub feed-IsValid :
      (s : StrategyId) (i : Init) (evs : List OrderEvent)
      → IsValid (feed (new s i) evs) × Reached (feed (new s i) evs)
  feed-IsValid s i evs =
      let v = feed_inv IsValid apply_event-IsValid (new s i) evs (new-IsValid s i) in
      (v, IsValid-Reached (feed (new s i) evs) v)

  -- A fill that a valid order takes, whose ordered quantity is an i64 that is not negative, in the
  -- precision of the filled quantity and of at most 18 places, is added to the filled quantity, and the
  -- order becomes `Filled` exactly if the sum reaches the ordered quantity, and `PartiallyFilled` exactly
  -- if it does not.
  pub take_fill_completes :
      (o : Order) (f : Fill) (ev : OrderEvent) {o' : Order}
      → IsValid o
      → o.quantity.precision ≡ o.filled_qty.precision
      → o.quantity.precision ≤ 18
      → (pos 0 ≤ℤ o.quantity.raw) × (pos_part o.quantity.raw < 2 ^ 63)
      → take_fill o f ev ≡ ok o'
      → (o'.filled_qty.raw ≡ o.filled_qty.raw +ℤ f.last_qty.raw)
        × ((o'.status ≡ OrderStatus.filled) ↔ (o.quantity.raw ≤ℤ o'.filled_qty.raw))
        × ((o'.status ≡ OrderStatus.partially_filled) ↔ (o'.filled_qty.raw <ℤ o.quantity.raw))
  unfolding take_fill leaves_qty
  take_fill_completes o f ev v p q a e = elim (Result-cases (apply_fill o f)) [
    | inl (o'', r) ↦ ground (
      arith,
      apply_fill-filled o f r,
      apply_fill_lem o f r,
      apply_fill_keeps o f r,
      leaves_lem o'',
    )
    | inr (x, r) ↦ ground arith
  ]
