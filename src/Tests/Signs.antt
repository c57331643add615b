-- ===== src/Tests/Signs.antt =====
-- The signs of the sample decimals are as the library documents.
use Prim.Native.Nat.{Ordering}
use native.Mathlib.Nat.{one-le-pow, sub_self, mul-pos, zero-add}
use coinext.Prelude.{
  ℕ, suc, ◌+◌, ◌-◌, ◌*◌, ◌^◌, ◌<◌, ◌≡◌, refl, sym, subst, true, false, arith, leb,
}
use coinext.Prelude.Int.{ℤ, pos, negsuc, beq_ℤ, ◌+ℤ◌}
use coinext.Core.Decimal.{lt}
use coinext.Model.Position.Booking.{Signs}
use coinext.Tests.Sample.{sample_decimals, times, larger, ordering, size_of, with_sign}

leb_zero : (n : ℕ) → leb 0 n ≡ true
leb_zero n = ground arith

larger_zero : (s : ℕ) → larger 0 s ≡ s
larger_zero s = rw (leb_zero s) refl

nothing : (k : ℕ) → 0 * k ≡ 0
nothing k = omega arith

first :
    (a n : ℕ)
    → a ≡ 0
    → ordering (pos a) (pos (size_of (pos (suc n)) * size_of (pos 1))) ≡ Ordering.lt
first a n e = ground (arith, e)

last :
    (a n : ℕ)
    → a ≡ 0
    → ordering (pos a) (with_sign true (size_of (negsuc n) * size_of (pos 1))) ≡ Ordering.gt
last a n e = ground (arith, e)

above : (n s : ℕ) → sample_decimals.cmp (pos 0, 0) (pos (suc n), s) ≡ Ordering.lt
above n s = rw (larger_zero s, sub_self s) (first _ n (nothing _))

above_zero : (n s : ℕ) → lt ⦃d = sample_decimals⦄ (pos 0, 0) (pos (suc n), s) ≡ true
above_zero n s = rw (lt, above n s) refl

below : (n s : ℕ) → sample_decimals.cmp (pos 0, 0) (negsuc n, s) ≡ Ordering.gt
below n s = rw (larger_zero s, sub_self s) (last _ n (nothing _))

below_zero : (n s : ℕ) → lt ⦃d = sample_decimals⦄ (pos 0, 0) (negsuc n, s) ≡ false
below_zero n s = rw (lt, below n s) refl

neg_one : (n : ℕ) → times (negsuc 0) (pos (suc n)) ≡ negsuc n
neg_one n = ground arith

one : (n : ℕ) → times (pos 1) (pos (suc n)) ≡ pos (suc n)
one n = ground arith

mul_one : (n s : ℕ) → sample_decimals.mul sample_decimals.one (pos (suc n), s) ≡ (pos (suc n), s)
mul_one n s = rw (one n, zero-add s) refl

mul_minus :
    (n s : ℕ)
    → sample_decimals.mul (sample_decimals.neg sample_decimals.one) (pos (suc n), s) ≡ (negsuc n, s)
mul_minus n s = rw (neg_one n, zero-add s) refl

add_zero : (k : ℕ) → k + 0 ≡ k
add_zero k = omega arith

abs_pos : (n : ℕ) → pos (size_of (pos (suc n))) ≡ pos (suc n)
abs_pos n = ground arith

abs_neg : (n : ℕ) → pos (size_of (times (negsuc 0) (pos (suc n)))) ≡ pos (suc n)
abs_neg n = rw (neg_one n) (ground arith)

nonzero_sum : (x y : ℕ) → 0 < x → beq_ℤ (pos x +ℤ pos y) (pos 0) ≡ false
unfolding ◌+ℤ◌
nonzero_sum x y h = ground (arith, h)

power : (n k : ℕ) → 0 < size_of (pos (suc n)) * size_of (pos (10 ^ k))
power n k =
    mul-pos (omega arith)
      (subst (λ x. 0 < x) (sym (add_zero (10 ^ k))) (one-le-pow k 10 (omega arith)))

positive_sum :
    (n s m t : ℕ) (a : ℤ)
    → a ≡ pos (suc n)
    → beq_ℤ (sample_decimals.add (a, s) (pos (suc m), t)).0 (pos 0) ≡ false
positive_sum n s m t a e = rw e (nonzero_sum _ _ (power n (larger s t - s)))

pub sample_signs : Signs
sample_signs = record {
  zero_is_zero = refl;
  signs = λ n s h k. (
    ground arith,
    above_zero n s,
    rw (neg_one n) (ground arith),
    rw (lt, neg_one n, below n s) refl,
    subst (λ a. lt ⦃d = sample_decimals⦄ (pos 0, 0) a ≡ true) (sym (mul_one n s)) (above_zero n s),
    subst (λ a. lt ⦃d = sample_decimals⦄ (pos 0, 0) a ≡ false) (sym (mul_minus n s))
        (below_zero n s),
  );
  sums =
      λ n s m t a b c e. (positive_sum n s m t _ (abs_pos n), positive_sum n s m t _ (abs_neg n));
}
