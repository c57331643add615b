-- ===== src/RiskGate/Check.antt =====
-- risk-portfolio/crates/coinext-risk-engine/src/lib.rs: what an approved order satisfies, stated limit
-- by limit, and what the kill switch does.
use coinext.Prelude.{
  ◌≡◌, refl, ◌≢◌, ◌↔◌, Bool, true, false, Option, none, some, arith, Option-cases, inl, inr,
}
use coinext.Core.Decimal.{Decimals, lt}
use coinext.Core.Price
use coinext.Core.Price.{Price}
use coinext.Core.Quantity
use coinext.Core.Quantity.{Quantity}
use coinext.Core.Currency.{currency_eq}
use coinext.Core.Money
use coinext.Core.Money.{Money}
use coinext.Model.Order.{Order}
use coinext.Model.Instrument.{Instrument, multiplier, min_notional}
use coinext.Cache.{Cache}
use coinext.Ports.{Portfolio, DenyReason, denied}
use coinext.RiskGate.{
  RiskGate, check, set_kill_switch, reference_price, signed_position_qty, order_delta,
  order_notional, added_qty, free_equity, notional_denial, position_denial, exposure_denial,
  margin_denial, or_else, deny_if,
}

module _ ⦃d : Decimals⦄ where
  -- What every limit asks of an order, limit by limit.
  pub record Allowed (g : RiskGate) (c : Cache) (o : Order) (portfolio : Portfolio)
      (inst : Instrument) : Type 0 where
    pub not_killed : g.killed ≡ false
    pub at_least :
        (p : Price) (m : Money)
        → reference_price c o ≡ some p
        → min_notional inst ≡ some m
        → lt (order_notional o inst p) (Money.amount m) ≡ false
    pub at_most :
        (p : Price) (m : Money)
        → reference_price c o ≡ some p
        → g.limits.max_order_notional ≡ some m
        → lt (Money.amount m) (order_notional o inst p) ≡ false
    pub size :
        (q : Quantity)
        → g.limits.max_position_qty ≡ some q
        → lt
            (Quantity.as_decimal q)
            (d.abs (d.add (signed_position_qty portfolio c o) (order_delta o)))
          ≡ false
    pub gross :
        (m : Money)
        → g.limits.max_gross_exposure ≡ some m
        → (portfolio.gross_exposure c).currency ≡ m.currency
        → lt (Money.amount m) (Money.amount (portfolio.gross_exposure c)) ≡ false
    pub margin :
        (lev : d.Decimal) (p : Price)
        → g.limits.leverage ≡ some lev
        → reference_price c o ≡ some p
        → lt d.zero lev ≡ true
        → lt d.zero (added_qty (signed_position_qty portfolio c o) (order_delta o)) ≡ true
        → lt (free_equity portfolio c lev) (
            d.div
              (d.mul
                (d.mul
                  (Price.as_decimal p)
                  (added_qty (signed_position_qty portfolio c o) (order_delta o)))
                (Quantity.as_decimal (multiplier inst)))
              lev)
          ≡ false

  deny_if_iff : (b : Bool) (r : DenyReason) → (deny_if b r ≡ none) ↔ (b ≡ false)
  deny_if_iff true r = ground arith
  deny_if_iff false r = ground arith

  or_else_iff : (a b : Option DenyReason) → (or_else a b ≡ none) ↔ ((a ≡ none) × (b ≡ none))
  or_else_iff none b = ground arith
  or_else_iff (some r) b = ground arith

  abbrev CoversMargin :
      Portfolio → Cache → Instrument → d.Decimal → d.Decimal → d.Decimal → Price → Type 0
  CoversMargin portfolio c inst cur delta lev p =
      lt d.zero lev ≡ true
      → lt d.zero (added_qty cur delta) ≡ true
      → lt (free_equity portfolio c lev) (
          d.div
            (d.mul (d.mul (Price.as_decimal p) (added_qty cur delta))
              (Quantity.as_decimal (multiplier inst)))
            lev)
        ≡ false

  -- With the kill switch on, every order is denied for that reason; switching it on and off again
  -- leaves every decision as with the switch off.
  pub kill_switch_lem :
      (g : RiskGate) (c : Cache) (o : Order) (portfolio : Portfolio) (inst : Instrument)
      → (check (set_kill_switch true g) c o portfolio inst ≡ denied DenyReason.kill_switch_engaged)
        × (check (set_kill_switch false (set_kill_switch true g)) c o portfolio inst
            ≡ check (set_kill_switch false g) c o portfolio inst)
        × (check (set_kill_switch false g) c o portfolio inst
            ≢ denied DenyReason.kill_switch_engaged)
  unfolding check set_kill_switch notional_denial position_denial exposure_denial margin_denial
  kill_switch_lem g c o portfolio inst = (
    refl,
    refl,
    λ e. elim (Option-cases (reference_price c o)) [
      | inl n ↦ absurd (ground (arith, n))
      | inr (p, n) ↦ absurd (ground (arith, n))
    ],
  )
