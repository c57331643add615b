-- ===== src/Model/Order/Replay.antt =====
-- foundation/crates/coinext-model/src/order.rs: an order is the fold of its event log, and its
-- filled quantity is the sum of the fills in the log.
use coinext.Prelude.{◌≡◌, refl, sym, ap, ◌∙◌, inl, inr, List, [], ◌∷◌, ◌++◌, arith}
use coinext.Prelude.Int.{ℤ, pos, +ℤ-zero, +ℤ_assoc, +ℤ_comm, ◌+ℤ◌}
use coinext.Core.Error.{Result, ok, err, ◌>>=◌, invalid_transition, Result-cases}
use coinext.Core.Decimal.{Decimals}
use coinext.Core.Quantity
use coinext.Model.Ids.{StrategyId}
use coinext.Model.Fill.{Fill}
use coinext.Model.Order.{Order, Init, OrderEvent, new, apply, apply_fill, take_fill}

-- What the fill events of a log add up to, in raw units.
abbrev pub filled_by : OrderEvent → ℤ
filled_by (OrderEvent.partially_filled f) = f.last_qty.raw
filled_by (OrderEvent.filled f) = f.last_qty.raw
filled_by _ = pos 0

pub total_filled : List OrderEvent → ℤ
total_filled [] = pos 0
total_filled (ev ∷ evs) = filled_by ev +ℤ total_filled evs

total_filled-append :
    (xs : List OrderEvent) (ev : OrderEvent)
    → total_filled (xs ++ (ev ∷ [])) ≡ total_filled xs +ℤ filled_by ev
unfolding total_filled
total_filled-append [] ev = +ℤ_comm (filled_by ev) (pos 0)
total_filled-append (x ∷ xs) ev =
    rw (total_filled-append xs ev) (sym (+ℤ_assoc (filled_by x) (total_filled xs) (filled_by ev)))

module _ ⦃d : Decimals⦄ where
  pub apply_all : Order → List OrderEvent → Result Order
  apply_all o [] = ok o
  apply_all o (ev ∷ evs) = apply o ev >>= λ o'. apply_all o' evs

  -- Rebuilds an order from a log, which begins with its `Initialized` event.
  pub replay : StrategyId → List OrderEvent → Result Order
  unfolding apply_all
  replay s (OrderEvent.initialized i ∷ evs) = apply_all (new s i) evs
  replay s _ = err invalid_transition

  -- Feeds events to an order as the engines do: a refused event is dropped.
  pub feed : Order → List OrderEvent → Order
  feed o [] = o
  feed o (ev ∷ evs) = feed (elim (apply o ev) [ ok o' ↦ o' | err _ ↦ o ]) evs

  apply_all-append :
      (o : Order) (xs : List OrderEvent) (ev : OrderEvent)
      → apply_all o (xs ++ (ev ∷ [])) ≡ (apply_all o xs >>= λ o'. apply o' ev)
  unfolding apply_all
  apply_all-append o [] ev = ground arith
  apply_all-append o (x ∷ xs) ev = elim (Result-cases (apply o x)) [
    | inl (o', e) ↦ rw e (apply_all-append o' xs ev)
    | inr (x', e) ↦ rw e refl
  ]

  replay-append :
      (s : StrategyId) (xs : List OrderEvent) (ev : OrderEvent) {o o' : Order}
      → replay s xs ≡ ok o
      → apply o ev ≡ ok o'
      → replay s (xs ++ (ev ∷ [])) ≡ ok o'
  unfolding replay
  replay-append s (OrderEvent.initialized i ∷ xs) ev p q =
      rw (apply_all-append (new s i) xs ev, p) q
  replay-append s [] ev p q = cc
  replay-append s (_ ∷ xs) ev p q = cc

  -- An accepted event is appended to the log, and nothing else is.
  pub apply-events :
      (o : Order) (ev : OrderEvent) {o' : Order}
      → apply o ev ≡ ok o'
      → o'.events ≡ o.events ++ (ev ∷ [])
  unfolding apply take_fill apply_fill
  apply-events o (OrderEvent.submitted ts) e = ground arith
  apply-events o ev e = ground arith

  pub apply_fill-filled :
      (o : Order) (f : Fill) {o' : Order}
      → apply_fill o f ≡ ok o'
      → o'.filled_qty.raw ≡ o.filled_qty.raw +ℤ f.last_qty.raw
  unfolding apply_fill Quantity.checked_add
  apply_fill-filled o f e = ground arith

  apply-filled :
      (o : Order) (ev : OrderEvent) {o' : Order}
      → apply o ev ≡ ok o'
      → o'.filled_qty.raw ≡ o.filled_qty.raw +ℤ filled_by ev
  unfolding apply take_fill apply_fill Quantity.checked_add
  apply-filled o (OrderEvent.partially_filled f) e = ground arith
  apply-filled o (OrderEvent.filled f) e = ground arith
  apply-filled o ev e = ground (arith, +ℤ-zero o.filled_qty.raw)

  pub feed_inv {ℓ} :
      (P : Order → Type ℓ)
      → ((o : Order) (ev : OrderEvent) (o' : Order) → P o → apply o ev ≡ ok o' → P o')
      → (o : Order) (evs : List OrderEvent) → P o
      → P (feed o evs)
  unfolding feed
  feed_inv P step o [] h = h
  feed_inv P step o (ev ∷ evs) h = elim (Result-cases (apply o ev)) [
    | inl (o', e) ↦ rw e (feed_inv P step o' evs (step o ev o' h e))
    | inr (x, e) ↦ rw e (feed_inv P step o evs h)
  ]

  module _ (s : StrategyId) (i : Init) (evs : List OrderEvent) where
    -- Whatever events an order is fed, accepted or not, replaying its log gives the order again.
    pub replay-feed : replay s (feed (new s i) evs).events ≡ ok (feed (new s i) evs)
    unfolding replay apply_all new
    replay-feed =
        feed_inv (λ o. replay s o.events ≡ ok o)
          (λ o ev o' h e. ap (replay s) (apply-events o ev e) ∙ replay-append s o.events ev h e)
          (new s i) evs refl

    -- The filled quantity is the exact sum of the fills in the log, with no overflow.
    pub filled-feed : (feed (new s i) evs).filled_qty.raw ≡ total_filled (feed (new s i) evs).events
    unfolding total_filled new Quantity.zero
    filled-feed =
        feed_inv (λ o. o.filled_qty.raw ≡ total_filled o.events)
          (λ o ev o' h e.
            apply-filled o ev e
            ∙ ap (λ t. t +ℤ filled_by ev) h
            ∙ sym (ap total_filled (apply-events o ev e) ∙ total_filled-append o.events ev))
          (new s i) evs (sym (+ℤ-zero (pos 0)))
