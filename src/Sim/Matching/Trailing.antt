-- ===== src/Sim/Matching/Trailing.antt =====
-- backtesting-simulation/crates/coinext-sim: the trigger of a trailing stop only tightens.
use coinext.Prelude.{◌≡◌, ap, some, arith}
use coinext.Prelude.Int.{ℤ, pos_part, neg_part, int_laws, ◌+ℤ◌, ◌-ℤ◌, ◌≤ℤ◌}
use coinext.Core.Error.{Result, ok, err}
use coinext.Core.Decimal.{Decimals}
use coinext.Core.Price
use coinext.Core.Price.{Price}
use coinext.Model.Enums.{OrderSide, buy, sell}
use coinext.Model.Ids.{InstrumentId}
use coinext.Model.Instrument.{Instrument}
use coinext.Sim.Brokerage.{BrokerageModel}
use coinext.Sim.Tick.{Tick}
use coinext.Sim.Intake.{Resting, TrailState}
use coinext.Sim.Matching.{ratchet_of, new_extreme, new_trigger, with_extreme, decide}

-- The trigger stands at the offset from the extreme, on the losing side.
abbrev pub IsTight : OrderSide → TrailState → Price → Type 0
IsTight sell track p = track.extreme.raw ≡ p.raw +ℤ track.offset.raw
IsTight buy track p = p.raw ≡ track.extreme.raw +ℤ track.offset.raw

abbrev pub NoLooser : OrderSide → Price → Price → Type 0
NoLooser sell p p' = p.raw ≤ℤ p'.raw
NoLooser buy p p' = p'.raw ≤ℤ p.raw

checked_sub_raw : (p o : Price) {s : Price} → Price.checked_sub p o ≡ ok s → s.raw ≡ p.raw -ℤ o.raw
unfolding Price.checked_sub
checked_sub_raw p o h = ground arith

checked_add_raw : (p o : Price) {s : Price} → Price.checked_add p o ≡ ok s → s.raw ≡ p.raw +ℤ o.raw
unfolding Price.checked_add
checked_add_raw p o h = ground arith

le-max : (a b : Price) → a.raw ≤ℤ (Price.max a b).raw
le-max a b = ground arith

min-le : (a b : Price) → (Price.min a b).raw ≤ℤ a.raw
min-le a b = ground arith

-- The trigger after the extreme has moved to `e` on the favourable side.
sell_tightens :
    (x e off p p' : ℤ) → x ≡ p +ℤ off → x ≤ℤ e → p' ≡ e -ℤ off → (e ≡ p' +ℤ off) × (p ≤ℤ p')
sell_tightens x e off p p' tight up moved =
    rw moved (omega int_laws, omega (int_laws, up, ap pos_part tight, ap neg_part tight))

buy_tightens :
    (x e off p p' : ℤ) → p ≡ x +ℤ off → e ≤ℤ x → p' ≡ e +ℤ off → (p' ≡ e +ℤ off) × (p' ≤ℤ p)
buy_tightens x e off p p' tight down moved = (moved, rw (moved, tight) (omega int_laws))

module _ ⦃d : Decimals⦄ (model : BrokerageModel) (inst : Instrument) (t : Tick) where
  with_extreme_parts :
      (x : Price) (r : Result Price) (e p : Price)
      → with_extreme model inst t x r ≡ some (e, p)
      → (e ≡ x) × (r ≡ ok p)
  with_extreme_parts x (ok q) e p h = (cc, cc)
  with_extreme_parts x (err y) e p h = absurd (cc)

  ratchet_parts :
      (side : OrderSide) (track : TrailState) (e p : Price)
      → ratchet_of model inst t side (some track) ≡ some (e, p)
      → (e ≡ new_extreme model inst t side track.extreme)
        × (new_trigger model inst t side e track.offset ≡ ok p)
  unfolding ratchet_of
  ratchet_parts side track e p h =
      let extreme = new_extreme model inst t side track.extreme in
      let (at, okay) =
        with_extreme_parts extreme (new_trigger model inst t side extreme track.offset) e p h in
      (at, rw at okay)

  pub ratchet_tightens :
      (side : OrderSide) (track : TrailState) (p e p' : Price)
      → IsTight side track p
      → ratchet_of model inst t side (some track) ≡ some (e, p')
      → IsTight side (record track { extreme = e }) p' × NoLooser side p p'
  ratchet_tightens sell track p e p' tight h =
      let (at, moved) = ratchet_parts sell track e p' h in
      sell_tightens track.extreme.raw e.raw track.offset.raw p.raw p'.raw tight
        (rw at (le-max track.extreme t.high)) (checked_sub_raw e track.offset moved)
  ratchet_tightens buy track p e p' tight h =
      let (at, moved) = ratchet_parts buy track e p' h in
      buy_tightens track.extreme.raw e.raw track.offset.raw p.raw p'.raw tight
        (rw at (min-le track.extreme t.low)) (checked_add_raw e track.offset moved)

  pub decide_ratchet :
      (id : InstrumentId) (r : Resting) {x : Price × Price}
      → (decide model inst t id r).ratchet ≡ some x
      → ratchet_of model inst t r.order.side r.trail ≡ some x
  unfolding decide
  decide_ratchet id r h = ground arith
