-- ===== src/Core/Error.antt =====
-- foundation/crates/coinext-core/src/error.rs: the error type of the domain, without the text that a
-- variant carries for display, and the `?` of fallible code as a `do` block.
use coinext.Prelude.{ℕ, Bool, true, false, Option, none, some, List, ◌≡◌, refl, ◌⊎◌, inl, inr}

pub data ModelError : Type 0 where
  not_finite out_of_range negative overflow invalid_transition invalid : ModelError
  currency_mismatch : List ℕ → List ℕ → ModelError
  precision_mismatch : ℕ → ℕ → ModelError

-- `Result<T, ModelError>`
pub data Result {ℓ} (T : Type ℓ) : Type ℓ where
  ok : T → Result T
  err : ModelError → Result T

infixl 5 ◌>>=◌
abbrev pub ◌>>=◌ {ℓ κ} : {T : Type ℓ} {U : Type κ} → Result T → (T → Result U) → Result U
ok t >>= next = next t
err e >>= next = err e

infixl 5 ◌>>◌
abbrev pub ◌>>◌ {ℓ} : {U : Type ℓ} → Result (Unit {0}) → Result U → Result U
check >> rest = check >>= λ _. rest

abbrev pub fail_if : Bool → ModelError → Result (Unit {0})
fail_if true e = err e
fail_if false e = ok tt

-- `ok_or`
abbrev pub ok_or {ℓ} : {A : Type ℓ} → Option A → ModelError → Result A
ok_or none e = err e
ok_or (some a) e = ok a

-- `unwrap_or`
abbrev pub unwrap_or {ℓ} : {A : Type ℓ} → Result A → A → A
unwrap_or (ok a) d = a
unwrap_or (err e) d = d

abbrev pub is_ok {ℓ} : {A : Type ℓ} → Result A → Bool
is_ok (ok a) = true
is_ok (err e) = false

pub Result-cases {ℓ} :
    {A : Type ℓ} (r : Result A) → ((a : A) × (r ≡ ok a)) ⊎ ((e : _) × (r ≡ err e))
Result-cases (ok a) = inl (a, refl)
Result-cases (err e) = inr (e, refl)
