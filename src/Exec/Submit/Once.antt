-- ===== src/Exec/Submit/Once.antt =====
-- execution-live/crates/coinext-exec-engine/src/lib.rs: submissions are idempotent on the client order
-- id.
use coinext.Prelude.{◌≡◌, ap, ◌∙◌, ◌≢◌, true, [], arith, inl, inr}
use coinext.Prelude.Maps.{string_eq}
use coinext.Core.Decimal.{Decimals}
use coinext.Core.Time.{UnixNanos}
use coinext.Model.Order.{Order, OrderEvent}
use coinext.Cache
use coinext.Ports.{Portfolio, RiskEngine, Venue}
use coinext.Exec.Submit.{submit, route, is_some, State}
use coinext.Exec.Submit.Gate.{submit_cases, tracked, observed}

module _ ⦃d : Decimals⦄ (risk : RiskEngine) (portfolio : Portfolio) (sim : Venue) where
  submit_tracks :
      (o : Order) (now : UnixNanos) (s : State risk portfolio sim)
      → (submit risk portfolio sim o now s).1 ≢ []
      → is_some (Cache.order (submit risk portfolio sim o now s).0.0.cache o.client_order_id) ≡ true
  unfolding route
  submit_tracks o now s ne = elim (submit_cases risk portfolio sim o now s) [
    | inl h ↦ elim h.denied_only [ inl e ↦ absurd (ne e) | inr (x, e, t) ↦ t ]
    | inr (inst, c, r) ↦
        rw r (tracked o (OrderEvent.submitted now) (observed risk portfolio sim inst o now s.0))
  ]

  tracked_drops :
      (s : State risk portfolio sim) (o : Order) (now : UnixNanos)
      → is_some (Cache.order s.0.cache o.client_order_id) ≡ true
      → submit risk portfolio sim o now s ≡ (s, [])
  unfolding submit
  tracked_drops s o now h = ground (arith, h)

  -- Once a submission has produced an event, any further submission under its client order id, at any
  -- time and whatever the order says, changes nothing and produces nothing.
  pub submit_twice :
      (o o' : Order) (now now' : UnixNanos) (s : State risk portfolio sim)
      → (submit risk portfolio sim o now s).1 ≢ []
      → o'.client_order_id ≡ o.client_order_id
      → submit risk portfolio sim o' now' (submit risk portfolio sim o now s).0
        ≡ ((submit risk portfolio sim o now s).0, [])
  submit_twice o o' now now' s ne same =
      tracked_drops (submit risk portfolio sim o now s).0 o' now' (
        ap (λ id. is_some (Cache.order (submit risk portfolio sim o now s).0.0.cache id)) same
        ∙ submit_tracks o now s ne)
