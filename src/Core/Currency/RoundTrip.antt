-- ===== src/Core/Currency/RoundTrip.antt =====
-- foundation/crates/coinext-core/src/value.rs: from a code to a currency and back.
use coinext.Prelude.{
  ℕ, suc, zero, ◌≡◌, refl, ◌≢◌, ◌-◌, List, [], ◌∷◌, ◌++◌, length, All, arith, ap, length-append,
}
use coinext.Core.Error.{ok}
use coinext.Core.Currency.{Currency, new, zeros, until_zero, code_of}

until_zero-zeros : (n : ℕ) → until_zero (zeros n) ≡ []
unfolding until_zero
until_zero-zeros zero = refl
until_zero-zeros (suc n) = refl

until_zero-append : (bs : List ℕ) (n : ℕ) → All (λ b. b ≢ 0) bs → until_zero (bs ++ zeros n) ≡ bs
unfolding until_zero
until_zero-append [] n h = until_zero-zeros n
until_zero-append (b ∷ bs) n h = ground (arith, until_zero-append bs n h.1)

length-zeros : (n : ℕ) → length (zeros n) ≡ n
length-zeros zero = refl
length-zeros (suc n) = ap suc (length-zeros n)

-- A currency built from a code without a zero byte gives that code back, has the precision asked
-- for, and fills its array of eight bytes.
pub code_of-new :
    (bytes : List ℕ) (precision : ℕ) {c : Currency}
    → All (λ b. b ≢ 0) bytes
    → new bytes precision ≡ ok c
    → (code_of c ≡ bytes) × (c.precision ≡ precision) × (length c.code ≡ 8)
unfolding new code_of
code_of-new bytes precision h e = ground (
  arith,
  until_zero-append bytes (8 - length bytes) h,
  length-append bytes (zeros (8 - length bytes)),
  length-zeros (8 - length bytes),
)
