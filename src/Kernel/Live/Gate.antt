-- ===== src/Kernel/Live/Gate.antt =====
-- backtesting-simulation/crates/coinext-kernel/src/live.rs: which orders reach the venue.
use coinext.Prelude.{ℕ, ◌≡◌, refl, Option-cases, none, some, inl, inr, ◌⊎◌}
use coinext.Core.Decimal.{Decimals}
use coinext.Core.Time.{UnixNanos}
use coinext.Model.Instrument.{Instrument}
use coinext.Model.Order.{Order, OrderEvent}
use coinext.Cache
use coinext.Exec.Submit.{apply_or_keep}
use coinext.Portfolio.{portfolio_state}
use coinext.Ports.{RiskDecision, approved, denied, to_text}
use coinext.RiskGate.{risk_engine}
use coinext.Kernel.{Strategy}
use coinext.Kernel.Live.{
  ExecutionClient, DataClient, LiveKernel, Stepped, route_decided, route_submit,
}
use coinext.Kernel.Live.Handled.{tell_order-Handled}

module _ ⦃d : Decimals⦄ {S : Type 0} (wall : ℕ → UnixNanos) (exec : ExecutionClient)
    (data_port : DataClient) (strategy : Strategy S) where
  abbrev K : Type 0
  K = LiveKernel S exec data_port

  -- The order is new, its instrument is known and the risk gate approves it.
  pub record IsClear (o : Order) (k : K) (inst : Instrument) : Type 0 where
    pub untracked : Cache.order k.engine.cache o.client_order_id ≡ none
    pub known : Cache.instrument k.engine.cache o.instrument_id ≡ some inst
    pub passed_risk :
        (risk_engine k.risk).check k.engine.cache o (portfolio_state k.settle) inst ≡ approved

  -- Nothing is sent to the venue.
  pub record Kept (k : K) (s : Stepped S exec data_port) : Type 0 where
    pub client_same : s.0.exec_client ≡ k.exec_client
    pub risk_same : s.0.risk ≡ k.risk
    pub no_error : s.1 ≡ none

  -- The order is sent once, as it is after the event Submitted, and the client's error is returned.
  pub record Sent (o : Order) (now : UnixNanos) (k : K) (s : Stepped S exec data_port)
      : Type 0 where
    pub client_after :
        s.0.exec_client
        ≡ (exec.submit_order (apply_or_keep o (OrderEvent.submitted now)) k.exec_client).0
    pub error_after :
        s.1 ≡ (exec.submit_order (apply_or_keep o (OrderEvent.submitted now)) k.exec_client).1
    pub risk_same : s.0.risk ≡ k.risk

  decided_cases :
      (r : RiskDecision) (o : Order) (now : UnixNanos) (k : K)
      → Kept k (route_decided wall exec data_port strategy r o now k)
        ⊎ ((r ≡ approved) × Sent o now k (route_decided wall exec data_port strategy r o now k))
  decided_cases approved o now k =
      let h = tell_order-Handled wall exec data_port strategy o (OrderEvent.submitted now) k in
      inr (
        refl,
        record {
          client_after = rw h.exec_client refl;
          error_after = rw h.exec_client refl;
          risk_same = h.risk;
        },
      )
  decided_cases (denied reason) o now k =
      let h =
        tell_order-Handled wall exec data_port strategy o (OrderEvent.denied (to_text reason) now)
          k in
      inl (record { client_same = h.exec_client; risk_same = h.risk; no_error = refl })

  pub route_submit_cases :
      (o : Order) (now : UnixNanos) (k : K)
      → Kept k (route_submit wall exec data_port strategy o now k)
        ⊎ ((inst : Instrument) × IsClear o k inst
            × Sent o now k (route_submit wall exec data_port strategy o now k))
  unfolding route_submit
  route_submit_cases o now k = elim (Option-cases (Cache.order k.engine.cache o.client_order_id)) [
    | inr (x, a) ↦
        inl
          (rw (route_submit, a) (record { client_same = refl; risk_same = refl; no_error = refl }))
    | inl a ↦ elim (Option-cases (Cache.instrument k.engine.cache o.instrument_id)) [
      | inl b ↦ inl (
          rw (route_submit, a, b)
            (record { client_same = refl; risk_same = refl; no_error = refl }))
      | inr (inst, b) ↦
          let r = (risk_engine k.risk).check k.engine.cache o (portfolio_state k.settle) inst in
          elim (decided_cases r o now k) [
            | inl h ↦ inl (rw (route_submit, a, b) h)
            | inr (ok, h) ↦ inr (
              inst,
              record { untracked = a; known = b; passed_risk = ok },
              rw (route_submit, a, b) h,
            )
          ]
    ]
  ]

  clear-Sent :
      (o : Order) (now : UnixNanos) (k : K) (inst : Instrument)
      → IsClear o k inst
      → Sent o now k (route_submit wall exec data_port strategy o now k)
  unfolding route_submit
  clear-Sent o now k inst c =
      let r = (risk_engine k.risk).check k.engine.cache o (portfolio_state k.settle) inst in
      let h = tell_order-Handled wall exec data_port strategy o (OrderEvent.submitted now) k in
      rw (route_submit, c.untracked, c.known, c.passed_risk)
        (record {
          client_after = rw h.exec_client refl;
          error_after = rw h.exec_client refl;
          risk_same = h.risk;
        })

  -- A submission of the live kernel sends the order once, as it is after the event Submitted, if the
  -- order is not tracked, its instrument is known and the risk gate approves it; these conditions are
  -- enough, and where one fails nothing is sent and there is no error.
  pub route_submit_lem :
      (o : Order) (now : UnixNanos) (k : K)
      → let s = route_submit wall exec data_port strategy o now k in
        (Kept k s ⊎ ((inst : Instrument) × IsClear o k inst × Sent o now k s))
        × ((inst : Instrument) → IsClear o k inst → Sent o now k s)
  route_submit_lem o now k = (route_submit_cases o now k, λ inst c. clear-Sent o now k inst c)
