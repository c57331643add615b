-- ===== src/Core/Decimal.antt =====
-- What the code uses of `rust_decimal::Decimal` and of `f64`, which it does not implement: a
-- parameter of the model. The operators are total here; the library panics where a result has more
-- than 96 bits and on a division by zero.
use Prim.Native.Nat.{Ordering}
use coinext.Prelude.{ℕ, ◌≡◌, ◌≤◌, Bool, true, false, Option, String}
use coinext.Prelude.Int.{ℤ, fits}

pub record Decimals : Type 1 where
  pub Decimal : Type 0
  pub zero : Decimal
  pub one : Decimal
  pub add : Decimal → Decimal → Decimal
  pub sub : Decimal → Decimal → Decimal
  pub mul : Decimal → Decimal → Decimal
  pub div : Decimal → Decimal → Decimal
  pub neg : Decimal → Decimal
  pub abs : Decimal → Decimal
  pub cmp : Decimal → Decimal → Ordering
  pub is_zero : Decimal → Bool
  pub is_sign_negative : Decimal → Bool
  -- `from_i128_with_scale`
  pub with_scale : ℤ → ℕ → Decimal
  pub mantissa : Decimal → ℤ
  pub scale : Decimal → ℕ
  pub round_dp : Decimal → ℕ → Decimal
  -- `round_dp_with_strategy` with `ToZero`
  pub round_to_zero : Decimal → ℕ → Decimal
  pub rescale : Decimal → ℕ → Decimal
  -- `Display`
  pub to_text : Decimal → String
  pub F64 : Type 0
  pub is_finite : F64 → Bool
  pub from_f64_retain : F64 → Option Decimal

module _ ⦃d : Decimals⦄ where
  abbrev pub lt : d.Decimal → d.Decimal → Bool
  lt a b = elim (d.cmp a b) [ Ordering.lt ↦ true | _ ↦ false ]

  abbrev pub le : d.Decimal → d.Decimal → Bool
  le a b = elim (d.cmp a b) [ Ordering.gt ↦ false | _ ↦ true ]

  -- `max` and `min` of `Ord`, which keep the second and the first of two equal values.
  abbrev pub max : d.Decimal → d.Decimal → d.Decimal
  max a b = elim (d.cmp a b) [ Ordering.gt ↦ a | _ ↦ b ]

  abbrev pub min : d.Decimal → d.Decimal → d.Decimal
  min a b = elim (d.cmp a b) [ Ordering.gt ↦ b | _ ↦ a ]

-- The documented behaviour of scales: a mantissa of at most 96 bits is kept with its scale, and
-- neither rounding nor rescaling changes a value that has the wanted scale.
pub record KeepsScale ⦃d : Decimals⦄ : Type 0 where
  pub mantissa-with_scale :
      (n : ℤ) (s : ℕ) → fits 96 n ≡ true → s ≤ 28 → d.mantissa (d.with_scale n s) ≡ n
  pub scale-with_scale :
      (n : ℤ) (s : ℕ) → fits 96 n ≡ true → s ≤ 28 → d.scale (d.with_scale n s) ≡ s
  pub round_dp_same : (a : d.Decimal) (s : ℕ) → d.scale a ≡ s → d.round_dp a s ≡ a
  pub rescale_same : (a : d.Decimal) (s : ℕ) → d.scale a ≡ s → d.rescale a s ≡ a
