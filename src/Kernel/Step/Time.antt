-- ===== src/Kernel/Step/Time.antt =====
-- backtesting-simulation/crates/coinext-kernel/src/backtest.rs: the time at which `run` handles what is
-- to come.
use coinext.Prelude.{
  ℕ, zero, suc, ◌≤◌, ◌≡◌, ◌∙◌, All, refl, sym, ap, subst, List, [], ◌∷◌, some, none, inl, inr,
  Option-cases, Bool-cases, nat_beq, arith,
}
use coinext.Prelude.Maps.{some_inj}
use coinext.Core.Decimal.{Decimals}
use coinext.Core.Clock
use coinext.Core.Clock.{HistoricalClock}
use coinext.Core.Time.{UnixNanos}
use coinext.Model.Ids.{InstrumentId}
use coinext.Model.MarketData.{MarketEvent, ts_event}
use coinext.Sim.Brokerage.{BrokerageModel}
use coinext.Sim.Queue as Queue
use coinext.Kernel.{Strategy, BacktestKernel}
use coinext.Kernel.Commands.Frame.{Frame-trans}
use coinext.Kernel.Settle.{settle_expiries}
use coinext.Kernel.Settle.Frame.{later, settle_expiries-Settled, check_liquidation-Frame}
use coinext.Kernel.Step.Passing.{
  later_time, From, Taken, Taken_by, expiry_time, rest_of, advance_to_now, From-later, From-rest_of,
  earliest_least, earliest-none, earliest_right, From_sooner, later-Taken, rest_of-Taken,
}
use coinext.Kernel.Step.{
  next_market, next_expiry, frontier_of, drain_reports, fire_timers, feed_market, round, step,
  rounds,
}
use coinext.Kernel.Step.Frame.{drain_reports-Frame, fire_timers-Frame, take_event-Frame}

none_is_not_some : {A : Type 0} {a : A} → ¬ (none ≡ some a)
none_is_not_some e = cc

none_next : (evs : List MarketEvent) → next_market evs ≡ none → evs ≡ []
none_next [] e = refl
none_next (ev ∷ evs) e = cc

none_expiry : (es : List (UnixNanos × InstrumentId)) → next_expiry es ≡ none → es ≡ []
none_expiry [] e = refl
none_expiry ((ts, id) ∷ es) e = cc

module _ ⦃d : Decimals⦄ {S : Type 0} where
  frontier_least :
      (k : BacktestKernel S) {t : UnixNanos}
      → frontier_of k ≡ some t
      → (a : UnixNanos) → next_market k.events ≡ some a
      → t ≤ a
  unfolding frontier_of
  frontier_least k e = (earliest_least (next_market k.events) _ e).0

  -- What is left to come is in order, and none of it is in the past.
  pub record OnTime (k : BacktestKernel S) : Type 0 where
    pub events : From ts_event k.clock.now k.events
    pub expiries : From expiry_time k.clock.now k.expiries

  -- What a round at a frontier does to the time, to what is to come and to the risk settings.
  pub record Passed (k k' : BacktestKernel S) (t : UnixNanos) : Type 0 where
    pub now : k'.clock.now ≡ later_time k.clock.now t
    pub events : k'.events ≡ rest_of t k.events
    pub expiries : k'.expiries ≡ later t k.expiries
    pub risk : k'.risk ≡ k.risk

  -- What a step does: it takes events and expiries only at their own time, the time does not go
  -- back, and the risk settings stay.
  pub record InTime (k k' : BacktestKernel S) : Type 0 where
    pub now : k.clock.now ≤ k'.clock.now
    pub events : Taken ts_event k'.clock.now k.events k'.events
    pub expiries : Taken expiry_time k'.clock.now k.expiries k'.expiries
    pub risk : k'.risk ≡ k.risk

  -- Nothing is left to do.
  pub record IsIdle (k : BacktestKernel S) : Type 0 where
    pub events : k.events ≡ []
    pub expiries : k.expiries ≡ []
    pub reports : Queue.peek_due k.sim.queue ≡ none
    pub timers : Clock.peek_next_timer k.clock ≡ none

  -- The time is not before the one at the start or any event that was to come then.
  pub record ReachedFrom (k k' : BacktestKernel S) : Type 0 where
    pub now : k.clock.now ≤ k'.clock.now
    pub events : All (λ ev. ts_event ev ≤ k'.clock.now) k.events
    pub risk : k'.risk ≡ k.risk

  reached_here : (k : BacktestKernel S) → k.events ≡ [] → ReachedFrom k k
  reached_here k e = record {
    now = omega arith;
    events = subst (All (λ ev. ts_event ev ≤ k.clock.now)) (sym e) tt;
    risk = refl;
  }

  reached_on : (k l k' : BacktestKernel S) → InTime k l → ReachedFrom l k' → ReachedFrom k k'
  reached_on k l k' s r = record {
    now = omega (arith, s.now, r.now);
    events = Taken_by ts_event l.clock.now k'.clock.now k.events l.events s.events r.now r.events;
    risk = r.risk ∙ s.risk;
  }

  record Fed (k k' : BacktestKernel S) (left : List MarketEvent) : Type 0 where
    now : k'.clock.now ≡ k.clock.now
    events : k'.events ≡ left
    expiries : k'.expiries ≡ k.expiries
    risk : k'.risk ≡ k.risk

  frontier_expiry :
      (k : BacktestKernel S) {t : UnixNanos}
      → frontier_of k ≡ some t
      → (a : UnixNanos) → next_expiry k.expiries ≡ some a
      → t ≤ a
  unfolding frontier_of
  frontier_expiry k e a q =
      let (y, (y_is, y_le)) = earliest_right (Clock.peek_next_timer k.clock) _ q in
      let (z, (z_is, z_le)) = earliest_right (Queue.peek_due k.sim.queue) _ y_is in
      let first = (earliest_least (next_market k.events) _ e).1 z z_is in
      omega (arith, first, z_le, y_le)

  module _ (strategy : Strategy S) (model : BrokerageModel) where
    feed_market-Fed :
        (t : UnixNanos) (evs : List MarketEvent) (k : BacktestKernel S)
        → k.events ≡ evs
        → Fed k (feed_market strategy model t evs k) (rest_of t evs)
    unfolding feed_market
    feed_market-Fed t [] k e = record { now = refl; events = e; expiries = refl; risk = refl }
    feed_market-Fed t (ev ∷ evs) k e = elim (Bool-cases (nat_beq (ts_event ev) t)) [
      | inl now ↦
          let f = take_event-Frame strategy model ev evs k in
          rw (now, feed_market)
            (record { now = f.now; events = f.events; expiries = f.expiries; risk = f.risk })
      | inr other ↦
          rw (other, feed_market) (record { now = refl; events = e; expiries = refl; risk = refl })
    ]

    pub round-Passed :
        (t : UnixNanos) (k : BacktestKernel S) → Passed k (round strategy model t k) t
    unfolding round
    round-Passed t k =
        let k1 : BacktestKernel S = record k { clock = Clock.advance_to k.clock t } in
        let k2 = fire_timers strategy model t (drain_reports strategy model t k1) in
        let a =
          Frame-trans (drain_reports-Frame strategy model t k1)
            (fire_timers-Frame strategy model t _) in
        let b = feed_market-Fed t k.events k2 a.events in
        let s =
          settle_expiries-Settled strategy model t (feed_market strategy model t k.events k2) in
        let c =
          check_liquidation-Frame strategy model t
            (settle_expiries strategy model t (feed_market strategy model t k.events k2)) in
        record {
          now = c.now ∙ s.now ∙ b.now ∙ a.now ∙ advance_to_now k.clock t;
          events = c.events ∙ s.events ∙ b.events;
          expiries = c.expiries ∙ s.expiries ∙ ap (later t) (b.expiries ∙ a.expiries);
          risk = c.risk ∙ s.risk ∙ b.risk ∙ a.risk;
        }

    head_of :
        (evs : List MarketEvent) (ev : MarketEvent) (rest : List MarketEvent)
        → evs ≡ ev ∷ rest
        → next_market evs ≡ some (ts_event ev)
    head_of evs ev rest e = ap next_market e

    first_of :
        (es : List (UnixNanos × InstrumentId)) (e : UnixNanos × InstrumentId)
        (rest : List (UnixNanos × InstrumentId))
        → es ≡ e ∷ rest
        → next_expiry es ≡ some (expiry_time e)
    first_of es e rest q = ap next_expiry q

    round-InTime :
        (k : BacktestKernel S) {t : UnixNanos}
        → frontier_of k ≡ some t
        → OnTime k
        → OnTime (round strategy model t k) × InTime k (round strategy model t k)
    round-InTime k {t} e o =
        let p = round-Passed t k in
        let now' = later_time k.clock.now t in
        let least_expiry = frontier_expiry k e in
        let sooner =
          From_sooner expiry_time t k.clock.now k.expiries
            (λ x xs q. least_expiry (expiry_time x) (first_of k.expiries x xs q)) o.expiries in
        (
          record {
            events =
                subst (λ a. From ts_event a (round strategy model t k).events) (sym p.now)
                  (subst (From ts_event now') (sym p.events)
                    (From-rest_of t k.clock.now k.events (frontier_least k e) o.events));
            expiries =
                subst (λ a. From expiry_time a (round strategy model t k).expiries) (sym p.now)
                  (subst (From expiry_time now') (sym p.expiries)
                    (From-later t k.clock.now k.expiries o.expiries));
          },
          record {
            now = subst (λ a. k.clock.now ≤ a) (sym p.now) (ground arith);
            events =
                subst (λ a. Taken ts_event a k.events (round strategy model t k).events) (sym p.now)
                  (subst (Taken ts_event now' k.events) (sym p.events)
                    (rest_of-Taken t k.clock.now k.events o.events));
            expiries =
                subst (λ a. Taken expiry_time a k.expiries (round strategy model t k).expiries)
                  (sym p.now)
                  (subst (Taken expiry_time now' k.expiries) (sym p.expiries)
                    (later-Taken t k.clock.now k.expiries o.expiries sooner));
            risk = p.risk;
          },
        )

    -- A kernel whose events and expiries are in order of time and not before the time of its clock
    -- stays one in every step; the time does not go back, and a step takes an event or an expiry only at its own time and in order. The
    -- risk limits and the kill switch stay as they are.
    pub step-InTime :
        (k k' : BacktestKernel S)
        → OnTime k
        → step strategy model k ≡ some k'
        → OnTime k' × InTime k k'
    unfolding step
    step-InTime k k' o e = elim (Option-cases (frontier_of k)) [
      | inl q ↦ absurd (none_is_not_some (rw (q, step) at e))
      | inr (t, q) ↦
          subst (λ l. OnTime l × InTime k l) (some_inj (rw (q, step) at e)) (round-InTime k q o)
    ]

    step_none : (k : BacktestKernel S) → step strategy model k ≡ none → IsIdle k
    unfolding step frontier_of
    step_none k e = elim (Option-cases (frontier_of k)) [
      | inl q ↦
          let a = earliest-none (next_market k.events) _ q in
          let b = earliest-none (Queue.peek_due k.sim.queue) _ a.1 in
          let c = earliest-none (Clock.peek_next_timer k.clock) (next_expiry k.expiries) b.1 in
          record {
            events = none_next k.events a.0;
            expiries = none_expiry k.expiries c.1;
            reports = b.0;
            timers = c.0;
          }
      | inr (t, q) ↦
          absurd (none_is_not_some {a = round strategy model t k} (sym e ∙ rw (q, step) refl))
    ]

    -- A run within its bound, from a kernel whose events and expiries are in order of time and not
    -- before the time of its clock: it ends with every event and expiry taken and no report or timer
    -- left, at a time that is not before any of the events or its start, and with the same risk limits
    -- and kill switch.
    pub rounds_take_all :
        (n : ℕ) (k k' : BacktestKernel S)
        → OnTime k
        → rounds strategy model n k ≡ some k'
        → IsIdle k' × ReachedFrom k k'
    unfolding rounds
    rounds_take_all zero k k' o e = absurd (none_is_not_some e)
    rounds_take_all (suc n) k k' o e = elim (Option-cases (step strategy model k)) [
      | inl q ↦
          subst (λ l. IsIdle l × ReachedFrom k l) (some_inj (rw (q, rounds) at e))
            (step_none k q, reached_here k (step_none k q).events)
      | inr (l, q) ↦
          let s = step-InTime k l o q in
          let r = rounds_take_all n l k' s.0 (rw (q, rounds) at e) in
          (r.0, reached_on k l k' s.1 r.1)
    ]
