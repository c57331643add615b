-- ===== src/Prelude/Text.antt =====
-- Numbers printed at a fixed width, `{:0w}` in Rust, and that two of them are not printed alike.
use Prim.Native.Nat.{ℕ, zero, suc, ◌/◌, ◌%◌, ◌^◌, ◌<◌}
use Prim.Native.String.{String, ◌++◌, count}
use mathlib.Core.Path.{◌≡◌, refl, ◌∙◌, sym}
use mathlib.Core.Bool.{Bool, true, false, not, ◌||◌}
use native.Mathlib.Omega.{arith}
use native.Mathlib.Nat.{pow-suc}
use text.Mathlib.Text.{◌==◌}
use text.Mathlib.TextEquality.{eq_iff}
use text.Mathlib.TextLemmas.{length-append, append_inj}
use coinext.Prelude.Tests.{nat_beq, nat_beq_iff, if◌then◌else◌}

abbrev pub digit : ℕ → String
digit n =
    if nat_beq n 0
    then "0"
    else if nat_beq n 1
    then "1"
    else if nat_beq n 2
    then "2"
    else if nat_beq n 3
    then "3"
    else if nat_beq n 4
    then "4"
    else if nat_beq n 5
    then "5"
    else if nat_beq n 6
    then "6"
    else if nat_beq n 7
    then "7"
    else if nat_beq n 8
    then "8"
    else "9"

-- `{:0w}` of a number with at most `w` digits.
abbrev pub padded : ℕ → ℕ → String
padded zero n = ""
padded (suc w) n = padded w (n / 10) ++ digit (n % 10)

-- A test of each number under a bound.
passes : (ℕ → Bool) → ℕ → Bool
passes test zero = true
passes test (suc last) = if test last then passes test last else false

passed_at :
    (test : ℕ → Bool) {a : ℕ} (bound : ℕ) → a < bound → passes test bound ≡ true → test a ≡ true
unfolding passes
passed_at test zero less all = absurd (omega (arith, less))
passed_at test {a} (suc last) less all = ground (arith, passed_at test {a = a} last)

differ : ℕ → ℕ → Bool
differ a b = not (digit a == digit b) || nat_beq a b

digit_table : passes (λ a. passes (differ a) 10) 10 ≡ true
unfolding passes differ
digit_table = refl

digit_inj : (a b : ℕ) → a < 10 → b < 10 → digit a ≡ digit b → a ≡ b
unfolding differ
digit_inj a b h k e =
    let row = passed_at (λ x. passes (differ x) 10) 10 h digit_table in
    let cell = passed_at (differ a) 10 k row in
    ground (arith, cell, (eq_iff (digit a) (digit b)).1 e)

count_table : passes (λ a. nat_beq (count (digit a)) 1) 10 ≡ true
unfolding passes
count_table = refl

count-digit : (a : ℕ) → a < 10 → count (digit a) ≡ 1
count-digit a h =
    (nat_beq_iff (count (digit a)) 1).0
      (passed_at (λ x. nat_beq (count (digit x)) 1) 10 h count_table)

below_tenth : (w n : ℕ) → n < 10 ^ suc w → n / 10 < 10 ^ w
below_tenth w n h = omega (arith, h, pow-suc 10 w)

pub count-padded : (w n : ℕ) → count (padded w n) ≡ w
count-padded zero n = refl
count-padded (suc w) n = omega (
  arith,
  length-append (padded w (n / 10)) (digit (n % 10)),
  count-padded w (n / 10),
  count-digit (n % 10) (omega arith),
)

-- Numbers below 10^w have different texts of width w.
pub padded_inj : (w n m : ℕ) → n < 10 ^ w → m < 10 ^ w → padded w n ≡ padded w m → n ≡ m
padded_inj zero n m h k e = omega arith
padded_inj (suc w) n m h k e =
    let (high, low) = append_inj e (count-padded w (n / 10) ∙ sym (count-padded w (m / 10))) in
    let tens = padded_inj w (n / 10) (m / 10) (below_tenth w n h) (below_tenth w m k) high in
    let ones = digit_inj (n % 10) (m % 10) (omega arith) (omega arith) low in
    omega (arith, tens, ones)
