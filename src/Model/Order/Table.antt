-- ===== src/Model/Order/Table.antt =====
-- foundation/crates/coinext-model/src/order.rs: the transition table at the top of the file, as a
-- relation, against `apply`.
use coinext.Prelude.{
  Bool, true, false, if◌then◌else◌, ◌⊎◌, inl, inr, ◌≡◌, refl, sym, ◌↔◌, ◌≢◌, arith, any,
}
use coinext.Core.Error.{ok, err, invalid_transition}
use coinext.Core.Decimal.{Decimals}
use coinext.Core.Price
use coinext.Core.Quantity
use coinext.Model.Fill.{Fill}
use coinext.Model.Enums.{OrderStatus, is_terminal, status_beq}
use coinext.Model.Order.{Order, OrderEvent, apply, apply_fill, take_fill, fill_statuses, leaves_qty}

-- The kind of an event, its data left out.
pub data Kind : Type 0 where
  initialized submitted accepted pending_update updated pending_cancel partially_filled filled :
      Kind
  denied rejected canceled expired : Kind

abbrev pub kind : OrderEvent → Kind
kind (OrderEvent.initialized i) = Kind.initialized
kind (OrderEvent.submitted ts) = Kind.submitted
kind (OrderEvent.accepted v ts) = Kind.accepted
kind (OrderEvent.pending_update ts) = Kind.pending_update
kind (OrderEvent.updated q p ts) = Kind.updated
kind (OrderEvent.pending_cancel ts) = Kind.pending_cancel
kind (OrderEvent.partially_filled f) = Kind.partially_filled
kind (OrderEvent.filled f) = Kind.filled
kind (OrderEvent.denied r ts) = Kind.denied
kind (OrderEvent.rejected r ts) = Kind.rejected
kind (OrderEvent.canceled ts) = Kind.canceled
kind (OrderEvent.expired ts) = Kind.expired

-- The rows of the table.
pub data Edge : OrderStatus → Kind → OrderStatus → Type 0 where
  submit : Edge OrderStatus.initialized Kind.submitted OrderStatus.submitted
  accept : Edge OrderStatus.submitted Kind.accepted OrderStatus.accepted
  modify_accepted : Edge OrderStatus.accepted Kind.pending_update OrderStatus.pending_update
  modify_partial : Edge OrderStatus.partially_filled Kind.pending_update OrderStatus.pending_update
  update_accepted : Edge OrderStatus.pending_update Kind.updated OrderStatus.accepted
  update_partial : Edge OrderStatus.pending_update Kind.updated OrderStatus.partially_filled
  cancel_accepted : Edge OrderStatus.accepted Kind.pending_cancel OrderStatus.pending_cancel
  cancel_partial : Edge OrderStatus.partially_filled Kind.pending_cancel OrderStatus.pending_cancel
  cancel_update : Edge OrderStatus.pending_update Kind.pending_cancel OrderStatus.pending_cancel
  part_accepted : Edge OrderStatus.accepted Kind.partially_filled OrderStatus.partially_filled
  part_partial :
      Edge OrderStatus.partially_filled Kind.partially_filled OrderStatus.partially_filled
  part_update : Edge OrderStatus.pending_update Kind.partially_filled OrderStatus.partially_filled
  fill_accepted : Edge OrderStatus.accepted Kind.filled OrderStatus.filled
  fill_partial : Edge OrderStatus.partially_filled Kind.filled OrderStatus.filled
  fill_update : Edge OrderStatus.pending_update Kind.filled OrderStatus.filled
  canceled_accepted : Edge OrderStatus.accepted Kind.canceled OrderStatus.canceled
  canceled_partial : Edge OrderStatus.partially_filled Kind.canceled OrderStatus.canceled
  canceled_pending : Edge OrderStatus.pending_cancel Kind.canceled OrderStatus.canceled
  expire_accepted : Edge OrderStatus.accepted Kind.expired OrderStatus.expired
  expire_partial : Edge OrderStatus.partially_filled Kind.expired OrderStatus.expired
  reject_submitted : Edge OrderStatus.submitted Kind.rejected OrderStatus.rejected
  reject_update : Edge OrderStatus.pending_update Kind.rejected OrderStatus.rejected
  deny : Edge OrderStatus.initialized Kind.denied OrderStatus.denied

ruleset rows = (
  submit, accept, modify_accepted, modify_partial, update_accepted, update_partial, cancel_accepted,
  cancel_partial, cancel_update, part_accepted, part_partial, part_update, fill_accepted,
  fill_partial, fill_update, canceled_accepted, canceled_partial, canceled_pending, expire_accepted,
  expire_partial, reject_submitted, reject_update, deny,
)

abbrev is_fill : Kind → Bool
is_fill Kind.partially_filled = true
is_fill Kind.filled = true
is_fill _ = false

fill-source :
    {s t : OrderStatus} {k : Kind}
    → Edge s k t
    → is_fill k ≡ true
    → any (λ u. status_beq u s) fill_statuses ≡ true
fill-source submit e = ground arith
fill-source _ e = ground arith

module _ ⦃d : Decimals⦄ where
  apply_fill_errors : (o : Order) (f : Fill) → apply_fill o f ≢ err invalid_transition
  unfolding apply_fill Quantity.checked_add Price.from_decimal
  apply_fill_errors o f e = ground arith

  -- The kind under which an order that took an event stands in the table: a fill goes by what is left.
  abbrev pub kind_by : Order → OrderEvent → Kind
  kind_by o ev =
      if is_fill (kind ev)
      then (if Quantity.is_zero (leaves_qty o) then Kind.filled else Kind.partially_filled)
      else kind ev

  take_fill-Edge :
      (o : Order) (f : Fill) (ev : OrderEvent) {o' : Order}
      → take_fill o f ev ≡ ok o'
      → Edge o.status
          (if Quantity.is_zero (leaves_qty o') then Kind.filled else Kind.partially_filled)
          o'.status
  unfolding take_fill leaves_qty
  take_fill-Edge o f ev e = grind (arith, rows)

  -- Whatever `apply` accepts is a row of the documented table, where the row of a fill event is that of
  -- `Filled` if nothing is left of the order after it, and that of `PartiallyFilled` if something is,
  -- whichever of the two the event is.
  pub apply-Edge :
      (o : Order) (ev : OrderEvent) {o' : Order}
      → apply o ev ≡ ok o'
      → Edge o.status (kind_by o' ev) o'.status
  unfolding apply
  apply-Edge o (OrderEvent.partially_filled f) e = take_fill-Edge o f _ e
  apply-Edge o (OrderEvent.filled f) e = take_fill-Edge o f _ e
  apply-Edge o (OrderEvent.initialized i) e = cc
  apply-Edge o ev e = grind (arith, rows)

  accept_fill :
      (o : Order) (f : Fill) (ev : OrderEvent) (s : OrderStatus)
      → any (λ t. status_beq t s) fill_statuses ≡ true
      → o.status ≡ s
      → take_fill o f ev ≢ err invalid_transition
  unfolding take_fill
  accept_fill o f ev s h e r = ground (arith, apply_fill_errors o f)

  accept_Edge :
      (o : Order) (ev : OrderEvent) {s t : OrderStatus} {k : Kind}
      → Edge s k t
      → o.status ≡ s
      → kind ev ≡ k
      → apply o ev ≢ err invalid_transition
  unfolding apply
  accept_Edge o (OrderEvent.partially_filled f) edge p q r =
      accept_fill o f _ _ (fill-source edge (rw (sym q) refl)) p r
  accept_Edge o (OrderEvent.filled f) edge p q r =
      accept_fill o f _ _ (fill-source edge (rw (sym q) refl)) p r
  accept_Edge o ev submit p q r = ground arith
  accept_Edge o ev _ p q r = ground arith

  refuse_fill :
      (o : Order) (f : Fill) (ev : OrderEvent)
      → ((s : OrderStatus) → ¬ Edge o.status Kind.filled s)
        ⊎ ((s : OrderStatus) → ¬ Edge o.status Kind.partially_filled s)
      → take_fill o f ev ≡ err invalid_transition
  unfolding take_fill
  refuse_fill o f ev (inl h) = grind (arith, h, rows)
  refuse_fill o f ev (inr h) = grind (arith, h, rows)

  refuse_apply :
      (o : Order) (ev : OrderEvent)
      → ((s : OrderStatus) → ¬ Edge o.status (kind ev) s)
      → apply o ev ≡ err invalid_transition
  unfolding apply
  refuse_apply o (OrderEvent.partially_filled f) h = refuse_fill o f _ (inr h)
  refuse_apply o (OrderEvent.filled f) h = refuse_fill o f _ (inl h)
  refuse_apply o ev h = grind (arith, h, rows)

  -- `apply` refuses an event as an invalid transition exactly when the documented table has no row
  -- for its kind in the order's status.
  pub apply_refused_iff :
      (o : Order) (ev : OrderEvent)
      → (apply o ev ≡ err invalid_transition) ↔ ((s : OrderStatus) → ¬ Edge o.status (kind ev) s)
  apply_refused_iff o ev = (λ e s edge. accept_Edge o ev edge refl refl e, refuse_apply o ev)

  -- In a terminal status every event is refused.
  apply_terminal :
      (o : Order) (ev : OrderEvent)
      → is_terminal o.status ≡ true
      → apply o ev ≡ err invalid_transition
  unfolding apply take_fill
  apply_terminal o (OrderEvent.submitted ts) h = ground arith
  apply_terminal o ev h = ground arith
