-- ===== src/Kernel/Step/Ends.antt =====
-- backtesting-simulation/crates/coinext-kernel/src/backtest.rs: the run of a watcher ends.
use coinext.Prelude.{
  ℕ, zero, suc, ◌+◌, ◌≤◌, ◌<◌, ◌≡◌, refl, sym, ◌∙◌, List, [], ◌∷◌, Option, some, none, inl, inr,
  Option-cases, Bool-cases, ltb, length, arith, keep, ◌⊎◌,
}
use coinext.Prelude.Maps.{some_inj}
use coinext.Core.Decimal.{Decimals}
use coinext.Core.Clock
use coinext.Core.Time.{UnixNanos}
use coinext.Model.Ids.{InstrumentId}
use coinext.Model.MarketData.{MarketEvent}
use coinext.Sim.Brokerage.{BrokerageModel}
use coinext.Sim.Queue as Queue
use coinext.Kernel.{Strategy, BacktestKernel}
use coinext.Kernel.Settle.Frame.{later}
use coinext.Kernel.Step.{round, step, rounds, frontier_of, next_market, next_expiry, earliest}
use coinext.Kernel.Step.Passing.{rest_of}
use coinext.Kernel.Step.Time.{round-Passed}
use coinext.Kernel.Step.Watching.{Watcher, IsStill}
use coinext.Kernel.Step.Still.{round-IsStill}

length-rest_of : (t : UnixNanos) (evs : List MarketEvent) → length (rest_of t evs) ≤ length evs
length-rest_of t [] = omega arith
length-rest_of t (ev ∷ evs) = ground arith

length-later :
    (t : UnixNanos) (es : List (UnixNanos × InstrumentId)) → length (later t es) ≤ length es
length-later t [] = omega arith
length-later t ((ts, id) ∷ es) = ground (arith, length-later t es)

rest_of_shorter :
    (t : UnixNanos) (evs : List MarketEvent)
    → next_market evs ≡ some t
    → length (rest_of t evs) < length evs
rest_of_shorter t [] e = cc
rest_of_shorter t (ev ∷ evs) e = ground (arith, some_inj e)

later_shorter :
    (t : UnixNanos) (es : List (UnixNanos × InstrumentId))
    → next_expiry es ≡ some t
    → length (later t es) < length es
later_shorter t [] e = cc
later_shorter t ((ts, id) ∷ es) e = ground (arith, some_inj e, length-later t es)

earliest_of :
    (a b : Option UnixNanos) {t : UnixNanos} → earliest a b ≡ some t → (a ≡ some t) ⊎ (b ≡ some t)
earliest_of none b e = inr e
earliest_of (some a) none e = inl e
earliest_of (some a) (some b) e = elim (Bool-cases (ltb b a)) [
  | inl l ↦ inr (rw l at e)
  | inr l ↦ inl (rw l at e)
]

module _ ⦃d : Decimals⦄ {S : Type 0} where
  -- The number of events and expiries that are left.
  abbrev pub left_of : BacktestKernel S → ℕ
  left_of k = length k.events + length k.expiries

  still_frontier :
      (k : BacktestKernel S)
      → IsStill k
      → frontier_of k ≡ earliest (next_market k.events) (next_expiry k.expiries)
  unfolding frontier_of Queue.peek_due Clock.peek_next_timer Clock.min_time keep
  still_frontier k v = rw (v.reports, v.timers) refl

  module _ (strategy : Strategy S) (model : BrokerageModel) (watcher : Watcher strategy) where
    fewer_left :
        (t : UnixNanos) (k : BacktestKernel S)
        → IsStill k
        → frontier_of k ≡ some t
        → left_of (round strategy model t k) < left_of k
    fewer_left t k v e =
        let p = round-Passed strategy model t k in
        let first = sym (still_frontier k v) ∙ e in
        rw (p.events, p.expiries)
          (elim (earliest_of (next_market k.events) (next_expiry k.expiries) first) [
            | inl q ↦ omega (arith, rest_of_shorter t k.events q, length-later t k.expiries)
            | inr q ↦ omega (arith, later_shorter t k.expiries q, length-rest_of t k.events)
          ])

    pub rounds_end :
        (n : ℕ) (k : BacktestKernel S)
        → IsStill k
        → left_of k < n
        → (k' : BacktestKernel S) × (rounds strategy model n k ≡ some k')
    unfolding rounds step
    rounds_end zero k v h = absurd (omega (arith, h))
    rounds_end (suc n) k v h = elim (Option-cases (frontier_of k)) [
      | inl q ↦ (k, rw (q, step, rounds) refl)
      | inr (t, q) ↦
          rw (q, step, rounds)
            (rounds_end n (round strategy model t k) (round-IsStill strategy model watcher t k v)
              (omega (arith, fewer_left t k v q, h)))
    ]
