-- ===== src/Sim/Brokerage/Bounded.antt =====
-- backtesting-simulation/crates/coinext-sim/src/brokerage.rs: the default model keeps what the trait
-- asks of `fillable_qty`.
use Prim.Native.Nat.{Ordering}
use coinext.Prelude.{
  ℕ, ◌≤◌, ◌<◌, ◌^◌, ◌≡◌, ◌≢◌, refl, sym, subst, arith, Bool-cases, inl, inr, ◌||◌,
}
use coinext.Prelude.Int.{ℤ, pos, negsuc, pos_part, ◌≤ℤ◌}
use coinext.Core.Error.{Result-cases, ok, unwrap_or}
use coinext.Core.Decimal.{Decimals, min, le}
use coinext.Core.Quantity
use coinext.Core.Quantity.{Quantity}
use coinext.Core.Quantity.RoundTrip.{IsValid}
use coinext.Sim.Brokerage.{DefaultBrokerageModel, brokerage_model, fillable_qty}
use coinext.Sim.Matching.Sizes.{IsPart, IsPart-self, IsBounded}

-- The documented behaviour of comparison and rounding: a decimal does not exceed itself, and rounding
-- to `s` places does not pass a value that has `s` places, for the values and places of a quantity.
pub record RoundsBelow ⦃d : Decimals⦄ : Type 0 where
  pub cmp_refl : (a : d.Decimal) → d.cmp a a ≡ Ordering.eq
  pub below :
      (a : d.Decimal) (n s : ℕ)
      → n < 2 ^ 63
      → s ≤ 18
      → d.cmp a (d.with_scale (pos n) s) ≢ Ordering.gt
      → d.mantissa (d.rescale (d.round_dp a s) s) ≤ℤ pos n

pos_of : (n : ℤ) → pos 0 ≤ℤ n → n ≡ pos (pos_part n)
pos_of (pos n) h = refl
pos_of (negsuc n) h = absurd (ground (arith, h))

module _ ⦃d : Decimals⦄ (laws : RoundsBelow) where
  min_case : (a b : d.Decimal) (o : Ordering) → d.cmp a b ≡ o → d.cmp (min a b) b ≢ Ordering.gt
  min_case a b Ordering.lt e = rw (e, min) (λ h. cc)
  min_case a b Ordering.eq e = rw (e, min) (λ h. cc)
  min_case a b Ordering.gt e = rw (e, min) (λ h. cc (laws.cmp_refl b))

  min_not_above : (a b : d.Decimal) → d.cmp (min a b) b ≢ Ordering.gt
  min_not_above a b = min_case a b (d.cmp a b) refl

  from_decimal-IsPart :
      (leaves q : Quantity) (a : d.Decimal)
      → IsValid leaves
      → d.cmp a (Quantity.as_decimal leaves) ≢ Ordering.gt
      → Quantity.from_decimal a leaves.precision ≡ ok q
      → IsPart leaves q
  unfolding Quantity.from_decimal Quantity.as_decimal
  from_decimal-IsPart leaves q a w h e =
      let s = leaves.precision in
      let raw = pos_of leaves.raw w.nonneg in
      let b =
        laws.below a (pos_part leaves.raw) s w.fits_i64 w.supported
          (subst (λ n. d.cmp a (d.with_scale n s) ≢ Ordering.gt) raw h) in
      ground (arith, e, subst (λ n. d.mantissa (d.rescale (d.round_dp a s) s) ≤ℤ n) (sym raw) b)

  or_leaves-IsPart :
      (leaves : Quantity) (a : d.Decimal)
      → IsValid leaves
      → d.cmp a (Quantity.as_decimal leaves) ≢ Ordering.gt
      → IsPart leaves (unwrap_or (Quantity.from_decimal a leaves.precision) leaves)
  or_leaves-IsPart leaves a w h = elim (Result-cases (Quantity.from_decimal a leaves.precision)) [
    | inl (q, e) ↦ rw e (from_decimal-IsPart leaves q a w h e)
    | inr (x, e) ↦ rw e (IsPart-self leaves w)
  ]

  -- For decimals that round as documented, the default model never fills more than is left.
  pub default-IsBounded : (m : DefaultBrokerageModel) → IsBounded (brokerage_model m)
  unfolding fillable_qty
  default-IsBounded m leaves v inst w =
      elim (Bool-cases (le m.participation_rate d.zero || le (Quantity.as_decimal v) d.zero)) [
        | inl e ↦ rw e (IsPart-self leaves w)
        | inr e ↦ rw e (or_leaves-IsPart leaves _ w (min_not_above _ _))
      ]
