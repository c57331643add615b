-- ===== src/RiskGate.antt =====
-- risk-portfolio/crates/coinext-risk-engine/src/lib.rs: the gate that every order passes before it
-- reaches a venue. `check` takes the first objection of its tests, in the order of the code.
pub mod Check
use Prim.Native.Nat.{Ordering}
use coinext.Prelude.{Bool, true, false, ◌&&◌, Option, none, some, if◌then◌else◌}
use coinext.Prelude.Maps.{◌==◌}
use coinext.Core.Decimal.{Decimals, lt}
use coinext.Core.Price
use coinext.Core.Price.{Price}
use coinext.Core.Quantity
use coinext.Core.Quantity.{Quantity}
use coinext.Core.Currency.{currency_eq}
use coinext.Core.Money
use coinext.Core.Money.{Money}
use coinext.Model.Order.{Order}
use coinext.Model.Position
use coinext.Model.Position.{Position, signed_of}
use coinext.Model.Instrument.{Instrument, multiplier, min_notional}
use coinext.Cache
use coinext.Cache.{Cache}
use coinext.Ports.{Portfolio, DenyReason, RiskDecision, RiskLimits, RiskEngine, approved, denied}

pub record RiskGate ⦃d : Decimals⦄ : Type 0 where
  pub limits : RiskLimits
  pub killed : Bool

-- `or_else`
abbrev pub or_else {ℓ} : {A : Type ℓ} → Option A → Option A → Option A
or_else none b = b
or_else (some a) b = some a

abbrev pub deny_if : Bool → DenyReason → Option DenyReason
deny_if true r = some r
deny_if false r = none

abbrev pub decision : Option DenyReason → RiskDecision
decision none = approved
decision (some r) = denied r

module _ ⦃d : Decimals⦄ where
  unfoldable pub new : RiskLimits → RiskGate
  new limits = record { limits = limits; killed = false }

  unfoldable pub set_kill_switch : Bool → RiskGate → RiskGate
  set_kill_switch engaged g = record g { killed = engaged }

  abbrev pub signed_or_zero : Option Position → d.Decimal
  signed_or_zero none = d.zero
  signed_or_zero (some p) = signed_of p.side p.quantity

  unfoldable pub signed_position_qty : Portfolio → Cache → Order → d.Decimal
  signed_position_qty portfolio c o = signed_or_zero (portfolio.position c o.instrument_id)

  unfoldable pub reference_price : Cache → Order → Option Price
  reference_price c o = or_else o.price (Cache.mark c o.instrument_id)

  -- The tests of the order's notional against one limit.
  abbrev pub below : d.Decimal → Option Money → Bool
  below a none = false
  below a (some m) = lt a (Money.amount m)

  abbrev pub above : d.Decimal → Option Money → Bool
  above a none = false
  above a (some m) = lt (Money.amount m) a

  unfoldable pub order_notional : Order → Instrument → Price → d.Decimal
  order_notional o inst px =
      d.mul (d.mul (Price.as_decimal px) (Quantity.as_decimal o.quantity))
        (Quantity.as_decimal (multiplier inst))

  unfoldable pub notional_denial :
      RiskLimits → Order → Instrument → Option Price → Option DenyReason
  notional_denial limits o inst none = none
  notional_denial limits o inst (some px) =
      or_else
        (deny_if (below (order_notional o inst px) (min_notional inst)) DenyReason.min_notional)
        (deny_if (above (order_notional o inst px) limits.max_order_notional)
          DenyReason.max_order_notional)

  -- The signed change that the order asks for.
  unfoldable pub order_delta : Order → d.Decimal
  order_delta o = Position.signed_fill o.side (Quantity.as_decimal o.quantity)

  abbrev pub over_size : d.Decimal → Option Quantity → Bool
  over_size a none = false
  over_size a (some q) = lt (Quantity.as_decimal q) a

  unfoldable pub position_denial : RiskLimits → d.Decimal → d.Decimal → Option DenyReason
  position_denial limits cur delta =
      deny_if (over_size (d.abs (d.add cur delta)) limits.max_position_qty)
        DenyReason.max_position_exceeded

  abbrev pub over_gross : Money → Option Money → Bool
  over_gross gross none = false
  over_gross gross (some m) =
      gross.currency == m.currency && lt (Money.amount m) (Money.amount gross)

  unfoldable pub exposure_denial : RiskLimits → Portfolio → Cache → Option DenyReason
  exposure_denial limits portfolio c =
      deny_if (over_gross (portfolio.gross_exposure c) limits.max_gross_exposure)
        DenyReason.max_gross_exposure_exceeded

  unfoldable pub free_equity : Portfolio → Cache → d.Decimal → d.Decimal
  free_equity portfolio c lev =
      d.sub (Money.amount (portfolio.equity c))
        (d.div (Money.amount (portfolio.gross_exposure c)) lev)

  unfoldable pub added_qty : d.Decimal → d.Decimal → d.Decimal
  added_qty cur delta = d.sub (d.abs (d.add cur delta)) (d.abs cur)

  -- The free equity does not cover the margin of what the order adds.
  abbrev pub short_of_margin :
      Portfolio
      → Cache
      → Instrument
      → d.Decimal
      → d.Decimal
      → Option d.Decimal
      → Option Price
      → Bool
  short_of_margin portfolio c inst cur delta (some lev) (some px) =
      lt d.zero lev
      && (lt d.zero (added_qty cur delta)
          && lt (free_equity portfolio c lev) (
              d.div
                (d.mul (d.mul (Price.as_decimal px) (added_qty cur delta))
                  (Quantity.as_decimal (multiplier inst)))
                lev))
  short_of_margin portfolio c inst cur delta none px = false
  short_of_margin portfolio c inst cur delta (some lev) none = false

  unfoldable pub margin_denial :
      RiskLimits
      → Portfolio
      → Cache
      → Instrument
      → d.Decimal
      → d.Decimal
      → Option Price
      → Option DenyReason
  margin_denial limits portfolio c inst cur delta px =
      deny_if (short_of_margin portfolio c inst cur delta limits.leverage px)
        DenyReason.insufficient_margin

  unfoldable pub objection : RiskGate → Cache → Order → Portfolio → Instrument → Option DenyReason
  unfolding notional_denial position_denial exposure_denial margin_denial
  objection g c o portfolio inst =
      let px = reference_price c o in
      let cur = signed_position_qty portfolio c o in
      let delta = order_delta o in
      or_else (deny_if g.killed DenyReason.kill_switch_engaged) (
        or_else (notional_denial g.limits o inst px) (
          or_else (position_denial g.limits cur delta) (
            or_else (exposure_denial g.limits portfolio c)
              (margin_denial g.limits portfolio c inst cur delta px))))

  unfoldable pub check : RiskGate → Cache → Order → Portfolio → Instrument → RiskDecision
  unfolding objection
  check g c o portfolio inst = decision (objection g c o portfolio inst)

  -- `impl RiskEngine for RiskGate`
  abbrev pub risk_engine : RiskGate → RiskEngine
  risk_engine g = record { check = check g }
