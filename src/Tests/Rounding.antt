-- ===== src/Tests/Rounding.antt =====
-- The sample decimals round as the library documents.
use Prim.Native.Nat.{Ordering, compare}
use native.Mathlib.Nat.{mod-add-div', div-le_of_le-mul, one-le-pow, mul_comm, sub_self}
use coinext.Prelude.{
  ℕ, ◌+◌, ◌-◌, ◌*◌, ◌/◌, ◌%◌, ◌^◌, ◌≤◌, ◌<◌, ◌≡◌, ◌≢◌, refl, sym, subst, true, false, arith, leb,
  ltb, inl, inr, Bool-cases, ◌⊎◌,
}
use coinext.Prelude.Int.{ℤ, pos, negsuc, ◌≤ℤ◌}
use coinext.Sim.Brokerage.Bounded.{RoundsBelow}
use coinext.Tests.Sample.{
  sample_decimals, half_even, Sample, scaled, round_to, with_sign, times, is_neg, size_of,
}

half_even_exact : (k p : ℕ) → 0 < p → k % p ≡ 0 → half_even k p ≡ k / p
half_even_exact k p h e = ground (arith, h, e)

half_even_step : (k p : ℕ) → half_even k p ≤ k / p + 1
half_even_step k p = ground arith

quotient_below : (k n p : ℕ) → 0 < p → k ≤ n * p → (k / p < n) ⊎ ((k / p ≡ n) × (k % p ≡ 0))
quotient_below k n p h le = elim (Bool-cases (ltb (k / p) n)) [
  | inl under ↦ inl (ground (arith, under))
  | inr over ↦
      let top : k / p ≤ n = div-le_of_le-mul p (subst (λ m. k ≤ m) (mul_comm n p) le) in
      let same : k / p ≡ n = ground (arith, over, top) in
      let rest = subst (λ q. k % p + q * p ≡ k) same (mod-add-div' k p) in
      inr (same, omega (arith, rest, le))
]

half_even_below : (k n p : ℕ) → 0 < p → k ≤ n * p → half_even k p ≤ n
half_even_below k n p h le = elim (quotient_below k n p h le) [
  | inl under ↦ omega (arith, half_even_step k p, under)
  | inr (same, none) ↦ omega (arith, half_even_exact k p h none, same)
]

leb_self : (n : ℕ) → leb n n ≡ true
leb_self n = ground arith

not_above : (a b : ℕ) → compare a b ≢ Ordering.gt → a ≤ b
not_above a b h = ground (arith, h)

neg_below : (k n : ℕ) → with_sign true k ≤ℤ pos n
neg_below k n = ground arith

below_large :
    (k n r s : ℕ)
    → leb r s ≡ false
    → sample_decimals.cmp (pos k, r) (pos n, s) ≢ Ordering.gt
    → half_even k (10 ^ (r - s)) ≤ n
below_large k n r s large h =
    let h1 = rw (large, sub_self r) at h in
    half_even_below k n (10 ^ (r - s)) (one-le-pow (r - s) 10 (omega arith))
      (omega (arith, not_above _ _ h1))

below_small :
    (k n r s : ℕ)
    → leb r s ≡ true
    → sample_decimals.cmp (pos k, r) (pos n, s) ≢ Ordering.gt
    → k * 10 ^ (s - r) ≤ n
below_small k n r s small h =
    let h1 = rw (small, sub_self s) at h in omega (arith, not_above _ _ h1)

round_large :
    (m : ℤ) (r s : ℕ)
    → leb r s ≡ false
    → (scaled (round_to (m, r) s) s).0 ≡ with_sign (is_neg m) (half_even (size_of m) (10 ^ (r - s)))
round_large m r s e = rw (e, leb_self s) refl

round_small :
    (m : ℤ) (r s : ℕ)
    → leb r s ≡ true
    → leb s r ≡ false
    → (scaled (round_to (m, r) s) s).0 ≡ times m (pos (10 ^ (s - r)))
round_small m r s e f = rw e (rw f refl)

round_same :
    (m : ℤ) (r s : ℕ) → leb r s ≡ true → leb s r ≡ true → (scaled (round_to (m, r) s) s).0 ≡ m
round_same m r s e f = rw e (rw f (rw e refl))

pos_below : (k n : ℕ) → k ≤ n → pos k ≤ℤ pos n
pos_below k n h = omega arith

add_zero : (k : ℕ) → k + 0 ≡ k
add_zero k = omega arith

large_below :
    (m : ℤ) (r n s : ℕ)
    → leb r s ≡ false
    → sample_decimals.cmp (m, r) (pos n, s) ≢ Ordering.gt
    → with_sign (is_neg m) (half_even (size_of m) (10 ^ (r - s))) ≤ℤ pos n
large_below (negsuc k) r n s e h = neg_below _ n
large_below (pos k) r n s e h =
    let le : half_even (size_of (pos k)) (10 ^ (r - s)) ≤ n =
      subst (λ z. half_even z (10 ^ (r - s)) ≤ n) (sym (add_zero k)) (below_large k n r s e h) in
    pos_below (half_even (size_of (pos k)) (10 ^ (r - s))) n le

small_below :
    (m : ℤ) (r n s : ℕ)
    → leb r s ≡ true
    → sample_decimals.cmp (m, r) (pos n, s) ≢ Ordering.gt
    → times m (pos (10 ^ (s - r))) ≤ℤ pos n
small_below (negsuc k) r n s e h = neg_below _ n
small_below (pos k) r n s e h =
    pos_below (size_of (pos k) * size_of (pos (10 ^ (s - r)))) n
      (omega (arith, below_small k n r s e h))

same_below :
    (m : ℤ) (r n s : ℕ)
    → leb r s ≡ true
    → leb s r ≡ true
    → sample_decimals.cmp (m, r) (pos n, s) ≢ Ordering.gt
    → m ≤ℤ pos n
same_below (negsuc k) r n s e f h = ground arith
same_below (pos k) r n s e f h =
    let gap : s - r ≡ 0 = ground (arith, e, f) in
    let le : k * 10 ^ 0 ≤ n = subst (λ z. k * 10 ^ z ≤ n) gap (below_small k n r s e h) in
    omega (arith, le)

below_sample :
    (m : ℤ) (r n s : ℕ)
    → sample_decimals.cmp (m, r) (pos n, s) ≢ Ordering.gt
    → (scaled (round_to (m, r) s) s).0 ≤ℤ pos n
below_sample m r n s h = elim (Bool-cases (leb r s)) [
  | inr large ↦
      subst (λ x. x ≤ℤ pos n) (sym (round_large m r s large)) (large_below m r n s large h)
  | inl small ↦ elim (Bool-cases (leb s r)) [
    | inr less ↦
        subst (λ x. x ≤ℤ pos n) (sym (round_small m r s small less)) (small_below m r n s small h)
    | inl same ↦
        subst (λ x. x ≤ℤ pos n) (sym (round_same m r s small same))
          (same_below m r n s small same h)
  ]
]

same_order : (a : Sample) → sample_decimals.cmp a a ≡ Ordering.eq
same_order a = ground arith

pub sample_rounds : RoundsBelow
sample_rounds = record { cmp_refl = same_order; below = λ a n s f g h. below_sample a.0 a.1 n s h }
