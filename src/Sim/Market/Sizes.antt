-- ===== src/Sim/Market/Sizes.antt =====
-- backtesting-simulation/crates/coinext-sim: the size that an order still has, at rest and in the fills
-- that the queue holds for it, across a market event.
use coinext.Prelude.{
  ℕ, ◌+◌, ◌≡◌, refl, Option-cases, List, [], ◌∷◌, arith, All, Bool-cases, inl, inr, if◌then◌else◌,
}
use coinext.Prelude.Int.{pos_part, ◌-ℤ◌}
use coinext.Prelude.Maps.{◌==◌, string_eq}
use coinext.Core.Decimal.{Decimals}
use coinext.Core.Quantity
use coinext.Core.Quantity.{Quantity}
use coinext.Core.Quantity.RoundTrip.{IsValid}
use coinext.Core.Time.{UnixNanos}
use coinext.Model.Ids.{ClientOrderId, InstrumentId}
use coinext.Model.Instrument.{Instrument}
use coinext.Ports.{ExecutionReport}
use coinext.Sim.Brokerage.{BrokerageModel}
use coinext.Sim.Queue.{Scheduled, earlier, place}
use coinext.Sim.Tick.{Tick, Decision, Outcome}
use coinext.Sim.Intake.{Resting}
use coinext.Sim.Matching.{decide}
use coinext.Sim.Matching.Sizes.{IsPart, IsPart-of, IsBounded, decide-Within}
use coinext.Sim.Market.{write_back, reduce, schedule, Ledger, keep_unfilled, match_loop}

-- The size that a report fills of the order `id`, as a raw number at the precision of the order.
abbrev pub filled_by : ClientOrderId → ExecutionReport → ℕ
filled_by id (ExecutionReport.fill f) =
    if f.client_order_id == id then pos_part f.last_qty.raw else 0
filled_by id _ = 0

abbrev pub filled_in : ClientOrderId → List ExecutionReport → ℕ
filled_in id [] = 0
filled_in id (r ∷ rs) = filled_by id r + filled_in id rs

abbrev pub scheduled : ClientOrderId → List Scheduled → ℕ
scheduled id [] = 0
scheduled id (s ∷ h) = filled_by id s.report + scheduled id h

abbrev pub open_of : ClientOrderId → Resting → ℕ
open_of id r = if r.order.client_order_id == id then pos_part r.remaining.raw else 0

abbrev pub open_size : ClientOrderId → List Resting → ℕ
open_size id [] = 0
open_size id (r ∷ rs) = open_of id r + open_size id rs

abbrev pub IsSized : Resting → Type 0
IsSized r = IsValid r.remaining

pub scheduled-place :
    (id : ClientOrderId) (s : Scheduled) (h : List Scheduled)
    → scheduled id (place s h) ≡ filled_by id s.report + scheduled id h
unfolding place
scheduled-place id s [] = refl
scheduled-place id s (t ∷ h) = elim (Bool-cases (earlier s t)) [
  | inl e ↦ rw e refl
  | inr e ↦ rw e (omega (arith, scheduled-place id s h))
]

-- A write back changes neither the size nor the name.
write_back_keeps :
    (o : Outcome) (r : Resting)
    → ((write_back o r).remaining ≡ r.remaining)
      × ((write_back o r).order.client_order_id ≡ r.order.client_order_id)
unfolding write_back
write_back_keeps o r = ground arith

-- What is filled and what remains add up.
reduce_exact :
    (dec : Decision) (r : Resting)
    → IsSized r
    → IsPart r.remaining dec.fill_qty
    → IsSized (reduce dec r)
      × (pos_part dec.fill_qty.raw + pos_part (reduce dec r).remaining.raw
          ≡ pos_part r.remaining.raw)
unfolding reduce Quantity.checked_sub Quantity.from_raw ◌-ℤ◌
reduce_exact dec r v p = ground arith

reduce_names :
    (dec : Decision) (r : Resting) → (reduce dec r).order.client_order_id ≡ r.order.client_order_id
unfolding reduce
reduce_names dec r = refl

keep_unfilled_size :
    (id : ClientOrderId) (r : Resting) (rs : List Resting)
    → open_size id (keep_unfilled r rs) ≡ open_of id r + open_size id rs
unfolding Quantity.is_zero
keep_unfilled_size id r rs = ground arith

keep_unfilled-IsSized :
    (r : Resting) (rs : List Resting)
    → IsSized r
    → All IsSized rs
    → All IsSized (keep_unfilled r rs)
keep_unfilled-IsSized r rs v w = elim (Bool-cases (Quantity.is_zero r.remaining)) [
  | inl e ↦ rw e w
  | inr e ↦ rw e (v, w)
]

module _ ⦃d : Decimals⦄ (model : BrokerageModel) (inst : Instrument) (now : UnixNanos)
    (id : ClientOrderId) where
  schedule_exact :
      (r : Resting) (dec : Decision) (l : Ledger)
      → IsValid dec.fill_qty
      → scheduled id (schedule model inst now r dec l).queue.heap
        ≡ (if r.order.client_order_id == id then pos_part dec.fill_qty.raw else 0)
          + scheduled id l.queue.heap
  unfolding schedule
  schedule_exact r dec l v = elim (Bool-cases (Quantity.is_positive dec.fill_qty)) [
    | inl e ↦ rw e (scheduled-place id _ l.queue.heap)
    | inr e ↦ rw e (ground (arith, e))
  ]

  -- One order, with the fill that is decided for it.
  filled_exact :
      (o : Outcome) (r : Resting) (dec : Decision) (l : Ledger)
      → IsSized r
      → IsPart r.remaining dec.fill_qty
      → let s = reduce dec (write_back o r) in
        IsSized s
        × (scheduled id (schedule model inst now r dec l).queue.heap + open_of id s
            ≡ scheduled id l.queue.heap + open_of id r)
  filled_exact o r dec l v p =
      let (same, named) = write_back_keeps o r in
      let (w, sum) = reduce_exact dec (write_back o r) (rw same v) (rw same p) in
      (
        w,
        ground (
          arith,
          schedule_exact r dec l p.valid,
          sum,
          same,
          named,
          reduce_names dec (write_back o r),
        ),
      )

  module _ (bounded : IsBounded model) (t : Tick) (at : InstrumentId) where
    pub match_loop_exact :
        (rs : List Resting) (l : Ledger)
        → All IsSized rs
        → let m = match_loop model inst now t at rs l in
          All IsSized m.1
          × (scheduled id m.0.queue.heap + open_size id m.1
              ≡ scheduled id l.queue.heap + open_size id rs)
    unfolding match_loop
    match_loop_exact [] l v = (tt, refl)
    match_loop_exact (r ∷ rs) l (v, vs) =
        let o = decide model inst t at r in
        elim (Option-cases o.decision) [
          | inl e ↦
              let (same, named) = write_back_keeps o r in
              let (ws, sum) = match_loop_exact rs l vs in
              rw (e, match_loop) ((rw same v, ws), ground (arith, sum, same, named))
          | inr (dec, e) ↦
              let fits = rw e at (decide-Within model bounded inst t r v at) in
              let (w, one) = filled_exact o r dec l v (IsPart-of fits) in
              let (ws, sum) = match_loop_exact rs (schedule model inst now r dec l) vs in
              rw (e, match_loop)
                (
                  keep_unfilled-IsSized _ _ w ws,
                  omega (
                    arith,
                    one,
                    sum,
                    keep_unfilled_size id (reduce dec (write_back o r))
                        (match_loop model inst now t at rs (schedule model inst now r dec l)).1,
                  ),
                )
        ]
