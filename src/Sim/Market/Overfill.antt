-- ===== src/Sim/Market/Overfill.antt =====
-- backtesting-simulation/crates/coinext-sim: what the simulated venue fills of an order over any run of
-- submissions, cancellations, market events and drains.
use coinext.Prelude.{
  ℕ, ◌+◌, ◌%◌, ◌^◌, ◌≤◌, ◌≡◌, refl, Option-cases, List, [], ◌∷◌, ◌++◌, arith, ltb, String, All,
  All-append, Bool-cases, inl, inr, if◌then◌else◌,
}
use coinext.Prelude.Int.{pos_part}
use coinext.Prelude.Maps.{◌==◌, string_eq}
use coinext.Core.Decimal.{Decimals}
use coinext.Core.Quantity.RoundTrip.{IsValid}
use coinext.Core.Time.{UnixNanos}
use coinext.Model.Ids.{ClientOrderId}
use coinext.Model.MarketData.{MarketEvent, instrument_id}
use coinext.Model.Order.{Order}
use coinext.Cache
use coinext.Cache.{Cache}
use coinext.Ports.{ExecutionReport}
use coinext.Sim.Brokerage.{BrokerageModel}
use coinext.Sim.Queue.{Scheduled, drain_due, drain_loop}
use coinext.Sim.Tick.{tick_of}
use coinext.Sim.Intake.{
  Resting, SimState, new, venue_id, remove_at, rests, marketable, resting_of, on_submit, on_cancel,
}
use coinext.Sim.Matching.Sizes.{IsBounded}
use coinext.Sim.Market.{on_market}
use coinext.Sim.Market.Sizes.{
  filled_in, scheduled, open_of, open_size, IsSized, scheduled-place, match_loop_exact,
}

filled_in-append :
    (id : ClientOrderId) (xs ys : List ExecutionReport)
    → filled_in id (xs ++ ys) ≡ filled_in id xs + filled_in id ys
filled_in-append id [] ys = omega arith
filled_in-append id (x ∷ xs) ys = omega (arith, filled_in-append id xs ys)

open_size-append :
    (id : ClientOrderId) (xs ys : List Resting)
    → open_size id (xs ++ ys) ≡ open_size id xs + open_size id ys
open_size-append id [] ys = omega arith
open_size-append id (x ∷ xs) ys = omega (arith, open_size-append id xs ys)

drain_loop_exact :
    (id : ClientOrderId) (frontier : UnixNanos) (h : List Scheduled)
    → filled_in id (drain_loop frontier h).1 + scheduled id (drain_loop frontier h).0
      ≡ scheduled id h
unfolding drain_loop
drain_loop_exact id frontier [] = refl
drain_loop_exact id frontier (s ∷ h) = elim (Bool-cases (ltb frontier s.due)) [
  | inl e ↦ rw e (omega arith)
  | inr e ↦ rw e (omega (arith, drain_loop_exact id frontier h))
]

remove_at_size :
    (id x : ClientOrderId) (rs : List Resting) → open_size id (remove_at x rs) ≤ open_size id rs
remove_at_size id x [] = omega arith
remove_at_size id x (r ∷ rs) = elim (Bool-cases (r.order.client_order_id == x)) [
  | inl e ↦ rw e (omega arith)
  | inr e ↦ rw e (omega (arith, remove_at_size id x rs))
]

remove_at-IsSized :
    (x : ClientOrderId) (rs : List Resting) → All IsSized rs → All IsSized (remove_at x rs)
remove_at-IsSized x [] v = tt
remove_at-IsSized x (r ∷ rs) (v, vs) = elim (Bool-cases (r.order.client_order_id == x)) [
  | inl e ↦ rw e vs
  | inr e ↦ rw e (v, remove_at-IsSized x rs vs)
]

-- All that the venue still has of the order `id`.
abbrev pub held : ClientOrderId → SimState → ℕ
held id s = scheduled id s.queue.heap + open_size id s.resting

module _ ⦃d : Decimals⦄ where
  -- A call of the venue, with the time and the cache at which it is made.
  pub data Call : Type 0 where
    submits : UnixNanos → Cache → Order → Call
    cancels : UnixNanos → ClientOrderId → Call
    moves : UnixNanos → Cache → MarketEvent → Call
    drains : UnixNanos → Call

  -- The size that a call orders under `id`.
  abbrev pub orders : ClientOrderId → Call → ℕ
  orders id (submits now c o) = if o.client_order_id == id then pos_part o.quantity.raw else 0
  orders id _ = 0

  abbrev pub ordered : ClientOrderId → List Call → ℕ
  ordered id [] = 0
  ordered id (c ∷ cs) = orders id c + ordered id cs

  abbrev pub IsProper : Call → Type 0
  IsProper (submits now c o) = IsValid o.quantity
  IsProper _ = Unit

  resting_of_size :
      (id : ClientOrderId) (c : Cache) (o : Order) (v : String)
      → IsValid o.quantity
      → IsSized (resting_of c o v)
        × (open_of id (resting_of c o v)
            ≡ (if o.client_order_id == id then pos_part o.quantity.raw else 0))
  unfolding resting_of
  resting_of_size id c o v q = elim (Bool-cases (marketable c o)) [
    | inl e ↦ rw e (q, refl)
    | inr e ↦ rw e (q, refl)
  ]

  module _ (model : BrokerageModel) where
    abbrev pub step : Call → SimState → SimState × List ExecutionReport
    step (submits now c o) s = (on_submit now model.latency_ns c o s, [])
    step (cancels now id) s = (on_cancel now model.latency_ns id s, [])
    step (moves now c ev) s = (on_market model now c ev s, [])
    step (drains frontier) s =
        let out = drain_due frontier s.queue in (record s { queue = out.0 }, out.1)

    -- The state, and all reports that were drained, in their order.
    abbrev pub run : List Call → SimState → SimState × List ExecutionReport
    run [] s = (s, [])
    run (c ∷ cs) s = let next = step c s in let rest = run cs next.0 in (rest.0, next.1 ++ rest.1)

    module _ (id : ClientOrderId) where
      submit_size :
          (now : UnixNanos) (c : Cache) (o : Order) (s : SimState)
          → IsValid o.quantity
          → All IsSized s.resting
          → All IsSized (on_submit now model.latency_ns c o s).resting
            × (held id (on_submit now model.latency_ns c o s)
                ≤ held id s + orders id (submits now c o))
      unfolding on_submit
      submit_size now c o s q v = elim (Option-cases (Cache.instrument c o.instrument_id)) [
        | inl e ↦ rw (e, on_submit) (v, omega arith)
        | inr (inst, e) ↦
            let v_id = venue_id ((s.venue_seq + 1) % 2 ^ 64) in
            let (w, size) = resting_of_size id c o v_id q in
            rw (e, on_submit)
              (
                All-append IsSized s.resting _ v (w, tt),
                omega (
                  arith,
                  size,
                  scheduled-place id _ s.queue.heap,
                  open_size-append id s.resting (resting_of c o v_id ∷ []),
                ),
              )
      ]

      cancel_size :
          (now : UnixNanos) (x : ClientOrderId) (s : SimState)
          → All IsSized s.resting
          → All IsSized (on_cancel now model.latency_ns x s).resting
            × (held id (on_cancel now model.latency_ns x s) ≤ held id s)
      unfolding on_cancel
      cancel_size now x s v = elim (Bool-cases (rests x s.resting)) [
        | inr e ↦ rw e (v, omega arith)
        | inl e ↦ rw e (
          remove_at-IsSized x s.resting v,
          omega (arith, remove_at_size id x s.resting, scheduled-place id _ s.queue.heap),
        )
      ]

      market_size :
          (now : UnixNanos) (c : Cache) (ev : MarketEvent) (s : SimState)
          → IsBounded model
          → All IsSized s.resting
          → All IsSized (on_market model now c ev s).resting
            × (held id (on_market model now c ev s) ≡ held id s)
      unfolding on_market
      market_size now c ev s bounded v =
          elim (Option-cases (Cache.instrument c (instrument_id ev))) [
            | inl e ↦ rw (e, on_market) (v, refl)
            | inr (inst, e) ↦ elim (Option-cases (tick_of ev)) [
              | inl f ↦ rw (e, f, on_market) (v, refl)
              | inr (t, f) ↦
                  rw (e, f, on_market)
                    (match_loop_exact model inst now id bounded t (instrument_id ev) s.resting
                      (record { queue = s.queue; trade_seq = s.trade_seq }) v)
            ]
          ]

      drain_size :
          (frontier : UnixNanos) (s : SimState)
          → filled_in id (step (drains frontier) s).1 + held id (step (drains frontier) s).0
            ≡ held id s
      unfolding drain_due
      drain_size frontier s = omega (arith, drain_loop_exact id frontier s.queue.heap)

      step_size :
          (c : Call) (s : SimState)
          → IsBounded model
          → IsProper c
          → All IsSized s.resting
          → All IsSized (step c s).0.resting
            × (filled_in id (step c s).1 + held id (step c s).0 ≤ held id s + orders id c)
      step_size (submits now c o) s b q v =
          let (w, h) = submit_size now c o s q v in (w, omega (arith, h))
      step_size (cancels now x) s b q v =
          let (w, h) = cancel_size now x s v in (w, omega (arith, h))
      step_size (moves now c ev) s b q v =
          let (w, h) = market_size now c ev s b v in (w, omega (arith, h))
      step_size (drains frontier) s b q v = (v, omega (arith, drain_size frontier s))

      run_size :
          (cs : List Call) (s : SimState)
          → IsBounded model
          → All IsProper cs
          → All IsSized s.resting
          → filled_in id (run cs s).1 + held id (run cs s).0 ≤ held id s + ordered id cs
      run_size [] s b q v = omega arith
      run_size (c ∷ cs) s b (q, qs) v =
          let (w, one) = step_size c s b q v in
          omega (
            arith,
            one,
            run_size cs (step c s).0 b qs w,
            filled_in-append id (step c s).1 (run cs (step c s).0).1,
          )

      -- If the brokerage model never fills more than is left, then over any calls of a new venue, in any
      -- order, the fills that it reports for an order, with what it still holds of it in its queue and
      -- at rest, do not exceed the size that was submitted under the id of that order.
      pub never_overfills :
          (cs : List Call)
          → IsBounded model
          → All IsProper cs
          → filled_in id (run cs new).1 + held id (run cs new).0 ≤ ordered id cs
      unfolding new
      never_overfills cs b q = omega (arith, run_size cs new b q tt)
