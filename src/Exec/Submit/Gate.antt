-- ===== src/Exec/Submit/Gate.antt =====
-- execution-live/crates/coinext-exec-engine/src/lib.rs: what must hold for an order to reach the venue,
-- and what a submission leaves behind.

use coinext.Prelude.{
  ◌≡◌, refl, sym, true, false, Option, none, some, List, [], ◌∷◌, String, arith, leb, Bool-cases,
  Option-cases, inl, inr, ◌⊎◌,
}
use coinext.Prelude.Maps.{get-insert_self, string_eq}
use coinext.Core.Error.{Result-cases}
use coinext.Core.Decimal.{Decimals, lt}
use coinext.Core.Quantity
use coinext.Core.Time.{UnixNanos}
use coinext.Model.Enums.{sell}
use coinext.Model.Order
use coinext.Model.Order.{Order, OrderEvent}
use coinext.Model.Order.Invariant.{apply_id}
use coinext.Model.Instrument.{Instrument, expiry_ns}
use coinext.Cache
use coinext.Ports.{
  Portfolio, RiskEngine, RiskDecision, Venue, DenyReason, to_text, approved, denied,
}
use coinext.RiskGate.{RiskGate, risk_engine, set_kill_switch}
use coinext.RiskGate.Check.{kill_switch_lem}
use coinext.Exec.{ExecutionEngine}
use coinext.Exec.Session.{is_ashare_equity, price_limit_violation, sellable_qty}
use coinext.Exec.Submit.{
  submit, screen, screen_limit, decide, route, deny, with_venue, t_plus_one_violation, passed,
  is_some, State, track, apply_or_keep,
}

module _ ⦃d : Decimals⦄ where
  RiskDecision-cases : (r : RiskDecision) → (r ≡ approved) ⊎ ((x : DenyReason) × (r ≡ denied x))
  RiskDecision-cases approved = inl refl
  RiskDecision-cases (denied x) = inr (x, refl)

  pub tracked :
      (o : Order) (ev : OrderEvent) (e : ExecutionEngine)
      → is_some (Cache.order (track (apply_or_keep o ev) e).cache o.client_order_id) ≡ true
  unfolding Cache.add_order Cache.order
  tracked o ev e = elim (Result-cases (Order.apply o ev)) [
    | inl (o', a) ↦
        rw (a, sym (apply_id o ev a), get-insert_self o'.client_order_id o' e.cache.orders) refl
    | inr (x, a) ↦ rw (a, get-insert_self o.client_order_id o e.cache.orders) refl
  ]

  module _ (risk : RiskEngine) (portfolio : Portfolio) (sim : Venue) where
    -- The engine once it has observed the mark for the price limit.
    abbrev pub observed : Instrument → Order → UnixNanos → ExecutionEngine → ExecutionEngine
    observed inst o now e = (price_limit_violation inst o now e).0

    -- What an order that reaches the venue has passed.
    pub record Cleared (inst : Instrument) (o : Order) (now : UnixNanos) (e : ExecutionEngine)
        : Type 0 where
      pub untracked : Cache.order e.cache o.client_order_id ≡ none
      pub known : Cache.instrument e.cache o.instrument_id ≡ some inst
      pub alive : (t : UnixNanos) → expiry_ns inst ≡ some t → leb t now ≡ false
      pub sellable :
          o.side ≡ sell
          → is_ashare_equity inst ≡ true
          → lt (sellable_qty portfolio o.instrument_id now inst e) (Quantity.as_decimal o.quantity)
            ≡ false
      pub in_limits : (price_limit_violation inst o now e).1 ≡ none
      pub passed_risk : risk.check (observed inst o now e).cache o portfolio inst ≡ approved

    -- Nothing was sent: the venue is as it was, and there is no event or one `Denied`.
    pub record Held (o : Order) (now : UnixNanos) (s : State risk portfolio sim)
        (r : State risk portfolio sim × List OrderEvent) : Type 0 where
      pub venue_same : r.0.1 ≡ s.1
      pub denied_only :
          (r.1 ≡ [])
          ⊎ ((x : String) × (r.1 ≡ OrderEvent.denied x now ∷ [])
              × (is_some (Cache.order r.0.0.cache o.client_order_id) ≡ true))

    alive_lem :
        (t? : Option UnixNanos) (now : UnixNanos)
        → passed t? now ≡ false
        → (t : UnixNanos) → t? ≡ some t
        → leb t now ≡ false
    alive_lem none now h t e = absurd (ground arith)
    alive_lem (some u) now h t e = ground (arith, h, e)

    sellable_lem :
        (inst : Instrument) (o : Order) (now : UnixNanos) (e : ExecutionEngine)
        → t_plus_one_violation portfolio inst o now e ≡ none
        → o.side ≡ sell
        → is_ashare_equity inst ≡ true
        → lt (sellable_qty portfolio o.instrument_id now inst e) (Quantity.as_decimal o.quantity)
          ≡ false
    unfolding t_plus_one_violation
    sellable_lem inst o now e h a b =
        elim (Bool-cases (
          lt (sellable_qty portfolio o.instrument_id now inst e)
            (Quantity.as_decimal o.quantity))) [
              | inl t ↦ absurd (ground (arith, h, a, b, t))
              | inr t ↦ t
            ]

    deny-Held :
        (o : Order) (x : String) (now : UnixNanos) (e : ExecutionEngine)
        (s : State risk portfolio sim)
        → Held o now s (with_venue risk portfolio sim (deny o x now e) s.1)
    unfolding deny
    deny-Held o x now e s = record {
      venue_same = refl;
      denied_only = inr (x, refl, tracked o (OrderEvent.denied x now) e);
    }

    decide_cases :
        (inst : Instrument) (o : Order) (now : UnixNanos) (s : State risk portfolio sim)
        → Held o now s (decide risk portfolio sim inst o now s)
          ⊎ ((risk.check s.0.cache o portfolio inst ≡ approved)
              × (decide risk portfolio sim inst o now s ≡ route risk portfolio sim o now s))
    unfolding decide
    decide_cases inst o now s = elim (RiskDecision-cases (risk.check s.0.cache o portfolio inst)) [
      | inl a ↦ inr (a, ground (arith, a))
      | inr (x, a) ↦ inl (rw (decide, a) (deny-Held o (to_text x) now s.0 s))
    ]

    limit_cases :
        (inst : Instrument) (o : Order) (now : UnixNanos) (s : State risk portfolio sim)
        → Held o now s (screen_limit risk portfolio sim inst o now s)
          ⊎ (((price_limit_violation inst o now s.0).1 ≡ none)
              × (risk.check (observed inst o now s.0).cache o portfolio inst ≡ approved)
              × (screen_limit risk portfolio sim inst o now s
                  ≡ route risk portfolio sim o now (observed inst o now s.0, s.1)))
    unfolding screen_limit
    limit_cases inst o now s = elim (Option-cases (price_limit_violation inst o now s.0).1) [
      | inr (x, a) ↦ inl (rw (screen_limit, a) (deny-Held o x now (observed inst o now s.0) s))
      | inl a ↦ elim (decide_cases inst o now (observed inst o now s.0, s.1)) [
        | inl h ↦ inl (
            rw (screen_limit, a)
              (record { venue_same = h.venue_same; denied_only = h.denied_only }))
        | inr (b, r) ↦ inr (a, b, ground (arith, a, r))
      ]
    ]

    -- An order either reaches the venue, and then it was not tracked, its instrument is known and not
    -- expired, a sale is covered by what may be sold, its price is within the daily limits and the
    -- risk gate approved it; or nothing is sent, the venue is as it was and the only event is `Denied`.
    pub submit_cases :
        (o : Order) (now : UnixNanos) (s : State risk portfolio sim)
        → Held o now s (submit risk portfolio sim o now s)
          ⊎ ((inst : Instrument) × Cleared inst o now s.0
              × (submit risk portfolio sim o now s
                  ≡ route risk portfolio sim o now (observed inst o now s.0, s.1)))
    unfolding submit screen
    submit_cases o now s = elim (Option-cases (Cache.order s.0.cache o.client_order_id)) [
      | inr (x, a) ↦ inl (rw (submit, a) (record { venue_same = refl; denied_only = inl refl }))
      | inl a ↦ elim (Option-cases (Cache.instrument s.0.cache o.instrument_id)) [
        | inl b ↦ inl (rw (submit, a, b) (record { venue_same = refl; denied_only = inl refl }))
        | inr (inst, b) ↦ elim (Bool-cases (passed (expiry_ns inst) now)) [
          | inl c ↦ inl (rw (submit, a, b, screen, c) (deny-Held o "instrument expired" now s.0 s))
          | inr c ↦ elim (Option-cases (t_plus_one_violation portfolio inst o now s.0)) [
            | inr (x, t) ↦ inl (rw (submit, a, b, screen, c, t) (deny-Held o x now s.0 s))
            | inl t ↦ elim (limit_cases inst o now s) [
              | inl h ↦ inl (rw (submit, a, b, screen, c, t) h)
              | inr (l, k, r) ↦ inr (
                inst,
                record {
                  untracked = a;
                  known = b;
                  alive = alive_lem (expiry_ns inst) now c;
                  sellable = sellable_lem inst o now s.0 t;
                  in_limits = l;
                  passed_risk = k;
                },
                ground (arith, a, b, c, t, r),
              )
            ]
          ]
        ]
      ]
    ]

  -- While the kill switch is on, no submission changes the venue.
  pub kill_switch_stops :
      (g : RiskGate) (portfolio : Portfolio) (sim : Venue) (o : Order) (now : UnixNanos)
      (e : ExecutionEngine) (v : sim.State)
      → (submit (risk_engine (set_kill_switch true g)) portfolio sim o now (e, v)).0.1 ≡ v
  kill_switch_stops g portfolio sim o now e v =
      let risk = risk_engine (set_kill_switch true g) in
      elim (submit_cases risk portfolio sim o now (e, v)) [
        | inl h ↦ h.venue_same
        | inr (inst, c, r) ↦ absurd (
            ground (
              arith,
              c.passed_risk,
              kill_switch_lem g (observed risk portfolio sim inst o now e).cache o portfolio inst,
            ))
      ]
