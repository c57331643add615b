-- ===== src/Prelude/Maps.antt =====
-- Keys with a Boolean equality, and the maps and sets of `std::collections` over them. A hash map is
-- an association list with one entry for each key; its order is that of first insertion.
use Prim.Native.Nat.{ℕ}
use Prim.Native.String.{String}
use mathlib.Core.Path.{◌≡◌, refl, sym, ap, ◌∙◌, subst}
use mathlib.Core.Logic.{◌↔◌, inl, inr}
use mathlib.Core.Bool.{Bool, true, false, ◌&&◌}
use mathlib.Core.Option.{Option, none, some}
use mathlib.Core.List.{List, [], ◌∷◌}
use native.Mathlib.Omega.{arith}
use text.Mathlib.Text.{◌==◌ as str_eq}
use text.Mathlib.TextEquality.{eq_iff}
use coinext.Prelude.Tests.{if◌then◌else◌, nat_beq, nat_beq_iff, Bool-cases}

-- A type whose equality the code computes.
pub record Eq {ℓ} (T : Type ℓ) : Type ℓ where
  pub beq : T → T → Bool
  pub beq_iff : (x y : T) → (beq x y ≡ true) ↔ (x ≡ y)

module _ {ℓ κ} {A : Type ℓ} {B : Type κ} where
  pub pair_beq_iff :
      (e : Eq A) (f : Eq B) (p q : A × B) → ((e.beq p.0 q.0 && f.beq p.1 q.1) ≡ true) ↔ (p ≡ q)
  pair_beq_iff e f (a, b) (c, d) = ground (arith, e.beq_iff a c, f.beq_iff b d)

  abbrev pub pair_eq : Eq A → Eq B → Eq (A × B)
  pair_eq e f = record { beq = λ p q. e.beq p.0 q.0 && f.beq p.1 q.1; beq_iff = pair_beq_iff e f }

instance abbrev pub string_eq : Eq String
string_eq = record { beq = str_eq; beq_iff = eq_iff }

module _ {ℓ} {A : Type ℓ} where
  abbrev pub list_beq : Eq A → List A → List A → Bool
  list_beq e [] [] = true
  list_beq e (x ∷ xs) (y ∷ ys) = e.beq x y && list_beq e xs ys
  list_beq e _ _ = false

  pub list_beq_iff : (e : Eq A) (xs ys : List A) → (list_beq e xs ys ≡ true) ↔ (xs ≡ ys)
  list_beq_iff e [] [] = ground arith
  list_beq_iff e (x ∷ xs) (y ∷ ys) = ground (arith, e.beq_iff x y, list_beq_iff e xs ys)
  list_beq_iff e [] (y ∷ ys) = ground arith
  list_beq_iff e (x ∷ xs) [] = ground arith

  abbrev pub list_eq : Eq A → Eq (List A)
  list_eq e = record { beq = list_beq e; beq_iff = list_beq_iff e }

pub some_inj {ℓ} : {A : Type ℓ} {a b : A} → some a ≡ some b → a ≡ b
some_inj {a = a} h = ap (λ o. elim o [ some x ↦ x | none ↦ a ]) h

instance abbrev pub nat_eq : Eq ℕ
nat_eq = record { beq = nat_beq; beq_iff = nat_beq_iff }

infix 50 ◌==◌
abbrev pub ◌==◌ {ℓ} : {K : Type ℓ} ⦃eq : Eq K⦄ → K → K → Bool
◌==◌ ⦃eq⦄ = eq.beq

module _ {ℓ κ} {K : Type ℓ} {V : Type κ} ⦃e : Eq K⦄ where
  unfoldable pub get : K → List (K × V) → Option V
  get k [] = none
  get k ((j, v) ∷ m) = if j == k then some v else get k m

  unfoldable pub insert : K → V → List (K × V) → List (K × V)
  insert k v [] = (k, v) ∷ []
  insert k v ((j, w) ∷ m) = if j == k then (k, v) ∷ m else (j, w) ∷ insert k v m

  unfoldable pub remove : K → List (K × V) → List (K × V)
  remove k [] = []
  remove k ((j, w) ∷ m) = if j == k then remove k m else (j, w) ∷ remove k m

  pub get-insert :
      (k j : K) (v : V) (m : List (K × V))
      → get j (insert k v m) ≡ (if k == j then some v else get j m)
  unfolding get insert
  get-insert k j v [] = refl
  get-insert k j v ((i, w) ∷ m) =
      ground (arith, e.beq_iff k j, e.beq_iff i k, e.beq_iff i j, get-insert k j v m)

  pub get-insert_self : (k : K) (v : V) (m : List (K × V)) → get k (insert k v m) ≡ some v
  get-insert_self k v m = rw (get-insert k k v m, (e.beq_iff k k).1 refl)

  pub get-insert_ne :
      (k j : K) (v : V) (m : List (K × V)) → k == j ≡ false → get j (insert k v m) ≡ get j m
  get-insert_ne k j v m h = rw (get-insert k j v m, h)

  -- A property of all entries is kept by an insertion of one that has it.
  pub insert_all :
      (P : K → V → Type κ) (k : K) (v : V) (m : List (K × V))
      → ((j : K) (w : V) → get j m ≡ some w → P j w)
      → P k v
      → (j : K) (w : V) → get j (insert k v m) ≡ some w
      → P j w
  insert_all P k v m all new j w h = elim (Bool-cases (k == j)) [
    | inl t ↦
        let at = sym (get-insert k j v m ∙ rw t refl) ∙ h in
        subst (λ i. P i w) ((e.beq_iff k j).0 t) (subst (P k) (some_inj at) new)
    | inr t ↦ all j w (sym (get-insert_ne k j v m t) ∙ h)
  ]

  pub get-remove :
      (k j : K) (m : List (K × V)) → get j (remove k m) ≡ (if k == j then none else get j m)
  unfolding get remove
  get-remove k j [] = ground arith
  get-remove k j ((i, w) ∷ m) =
      ground (arith, e.beq_iff k j, e.beq_iff i k, e.beq_iff i j, get-remove k j m)

module _ {ℓ} {K : Type ℓ} ⦃e : Eq K⦄ where
  unfoldable pub contains : K → List K → Bool
  contains k [] = false
  contains k (x ∷ xs) = if x == k then true else contains k xs

  -- `HashSet::insert`: whether the key is new, and the set with it.
  unfoldable pub set_insert : K → List K → Bool × List K
  unfolding contains
  set_insert k s = if contains k s then (false, s) else (true, k ∷ s)

  unfoldable pub set_remove : K → List K → List K
  set_remove k [] = []
  set_remove k (x ∷ xs) = if x == k then set_remove k xs else x ∷ set_remove k xs

  pub contains-set_insert :
      (k j : K) (s : List K)
      → contains j (set_insert k s).1 ≡ (if k == j then true else contains j s)
  unfolding set_insert contains
  contains-set_insert k j s = elim (Bool-cases (contains k s)) [
    | inl old ↦ rw old (ground (arith, e.beq_iff k j))
    | inr new ↦ rw new refl
  ]

  pub contains-set_remove :
      (k j : K) (s : List K)
      → contains j (set_remove k s) ≡ (if k == j then false else contains j s)
  unfolding set_remove contains
  contains-set_remove k j [] = ground arith
  contains-set_remove k j (x ∷ s) =
      ground (arith, e.beq_iff k j, e.beq_iff x k, e.beq_iff x j, contains-set_remove k j s)
