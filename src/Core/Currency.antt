-- ===== src/Core/Currency.antt =====
-- foundation/crates/coinext-core/src/value.rs: `Currency`, a code of at most eight bytes.
pub mod RoundTrip
use coinext.Prelude.{
  ℕ, zero, suc, ◌-◌, Bool, true, ◌||◌, ◌&&◌, List, [], ◌∷◌, ◌++◌, ltb, nat_beq, if◌then◌else◌,
  length, ◌≡◌, ◌↔◌, arith,
}
use coinext.Prelude.Maps.{Eq, nat_eq, list_eq}
use coinext.Core.Error.{Result, ok, ◌>>◌, fail_if, invalid}
use coinext.Core.Price.{check_precision}

-- `code` is the array of eight bytes, padded by zeros.
pub record Currency : Type 0 where
  pub code : List ℕ
  pub precision : ℕ

abbrev pub zeros : ℕ → List ℕ
zeros zero = []
zeros (suc n) = 0 ∷ zeros n

-- `Currency::new` on the bytes of the text.
unfoldable pub new : List ℕ → ℕ → Result Currency
unfolding check_precision
new bytes precision = do
  check_precision precision
  fail_if (nat_beq (length bytes) 0 || ltb 8 (length bytes)) invalid
  ok (record { code = bytes ++ zeros (8 - length bytes); precision = precision })

-- The bytes in front of the first zero.
unfoldable pub until_zero : List ℕ → List ℕ
until_zero [] = []
until_zero (b ∷ bs) = if nat_beq b 0 then [] else b ∷ until_zero bs

-- `Currency::code`, as bytes.
unfoldable pub code_of : Currency → List ℕ
unfolding until_zero
code_of c = until_zero c.code

abbrev pub currency_beq : Currency → Currency → Bool
currency_beq a b = (list_eq nat_eq).beq a.code b.code && nat_beq a.precision b.precision

pub currency_beq_iff : (a b : Currency) → (currency_beq a b ≡ true) ↔ (a ≡ b)
currency_beq_iff a b = ground (arith, (list_eq nat_eq).beq_iff a.code b.code)

-- The derived `PartialEq`.
instance abbrev pub currency_eq : Eq Currency
currency_eq = record { beq = currency_beq; beq_iff = currency_beq_iff }
