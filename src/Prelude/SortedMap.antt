-- ===== src/Prelude/SortedMap.antt =====
-- `BTreeMap<i64, V>`: the list of its entries in ascending order of the keys.
use coinext.Prelude.Tests.{if◌then◌else◌, Bool-cases, Option-cases}
use coinext.Prelude.Lists.{All, All-mono}
use coinext.Prelude.Int.{ℤ, ◌<ℤ◌, ◌≤ℤ◌, ltb_ℤ, beq_ℤ, eq_of_parts}
use mathlib.Core.Path.{◌≡◌, refl, subst, ◌∙◌}
use mathlib.Core.Logic.{inl, inr}
use mathlib.Core.Option.{Option, none, some, some-injective}
use mathlib.Core.List.{List, [], ◌∷◌}
use native.Mathlib.Omega.{arith}

module _ {V : Type 0} where
  unfoldable pub get : ℤ → List (ℤ × V) → Option V
  get k [] = none
  get k ((j, v) ∷ m) = if beq_ℤ j k then some v else get k m

  unfoldable pub insert : ℤ → V → List (ℤ × V) → List (ℤ × V)
  insert k v [] = (k, v) ∷ []
  insert k v ((j, w) ∷ m) =
      let rest = insert k v m in
      if ltb_ℤ k j then (k, v) ∷ (j, w) ∷ m else if beq_ℤ j k then (k, v) ∷ m else (j, w) ∷ rest

  unfoldable pub remove : ℤ → List (ℤ × V) → List (ℤ × V)
  remove k [] = []
  remove k ((j, w) ∷ m) = let rest = remove k m in if beq_ℤ j k then rest else (j, w) ∷ rest

  -- The entry with the least key, and the entry with the greatest.
  abbrev pub first? : List (ℤ × V) → Option (ℤ × V)
  first? [] = none
  first? (e ∷ m) = some e

  unfoldable pub last? : List (ℤ × V) → Option (ℤ × V)
  last? [] = none
  last? (e ∷ m) = elim (last? m) [ none ↦ some e | some f ↦ some f ]

  abbrev pub IsSorted : List (ℤ × V) → Type 0
  IsSorted [] = Unit
  IsSorted (e ∷ m) = All (λ f. e.0 <ℤ f.0) m × IsSorted m

  pub get-insert :
      (k j : ℤ) (v : V) (m : List (ℤ × V))
      → get j (insert k v m) ≡ (if beq_ℤ k j then some v else get j m)
  unfolding get insert
  get-insert k j v [] = refl
  get-insert k j v ((i, w) ∷ m) = ground (arith, get-insert k j v m)

  pub get-remove :
      (k j : ℤ) (m : List (ℤ × V)) → get j (remove k m) ≡ (if beq_ℤ k j then none else get j m)
  unfolding get remove
  get-remove k j [] = ground arith
  get-remove k j ((i, w) ∷ m) = ground (arith, get-remove k j m)

  pub All-insert :
      (P : ℤ × V → Type 0) (k : ℤ) (v : V) (m : List (ℤ × V))
      → P (k, v)
      → All P m
      → All P (insert k v m)
  unfolding insert
  All-insert P k v [] p a = (p, tt)
  All-insert P k v (e ∷ m) p a = ground (arith, All-insert P k v m p a.1)

  pub All-remove : (P : ℤ × V → Type 0) (k : ℤ) (m : List (ℤ × V)) → All P m → All P (remove k m)
  unfolding remove
  All-remove P k [] a = tt
  All-remove P k (e ∷ m) a = ground (arith, All-remove P k m a.1)

  pub insert-IsSorted : (k : ℤ) (v : V) (m : List (ℤ × V)) → IsSorted m → IsSorted (insert k v m)
  unfolding insert
  insert-IsSorted k v [] s = (tt, tt)
  insert-IsSorted k v ((j, w) ∷ m) s = elim (Bool-cases (ltb_ℤ k j)) [
    | inl below ↦
        let lt : k <ℤ j = ground arith in
        rw below ((lt, All-mono (λ f (q : j <ℤ f.0). omega arith) m s.0), s)
    | inr above ↦ rw above (elim (Bool-cases (beq_ℤ j k)) [
      | inl same ↦
          rw same (subst (λ i. All (λ f. i <ℤ f.0) m) (eq_of_parts j k (ground arith)) s.0, s.1)
      | inr other ↦
          rw other (All-insert (λ f. j <ℤ f.0) k v m (ground arith) s.0, insert-IsSorted k v m s.1)
    ])
  ]

  pub remove-IsSorted : (k : ℤ) (m : List (ℤ × V)) → IsSorted m → IsSorted (remove k m)
  unfolding remove
  remove-IsSorted k [] s = tt
  remove-IsSorted k ((j, w) ∷ m) s =
      ground (arith, remove-IsSorted k m s.1, All-remove (λ f. j <ℤ f.0) k m s.0)

  get_above :
      (b k : ℤ) (v : V) (m : List (ℤ × V)) → All (λ f. b <ℤ f.0) m → get k m ≡ some v → b <ℤ k
  unfolding get
  get_above b k v [] a g = absurd (ground arith)
  get_above b k v (e ∷ m) a g = ground (arith, get_above b k v m a.1)

  pub last-none : (m : List (ℤ × V)) (k : ℤ) → last? m ≡ none → get k m ≡ none
  unfolding last? get
  last-none [] k h = refl
  last-none (e ∷ m) k h = ground arith

  pub All-last :
      (P : ℤ × V → Type 0) (m : List (ℤ × V)) (e : ℤ × V) → All P m → last? m ≡ some e → P e
  unfolding last?
  All-last P [] e a h = absurd (ground arith)
  All-last P (f ∷ m) e a h = elim (Option-cases (last? m)) [
    | inl empty ↦ subst P (some-injective _ _ (rw empty at h)) a.0
    | inr (g, p) ↦ All-last P m e a.1 (p ∙ rw p at h)
  ]

  -- The first entry is found under its key, and no key is below it.
  pub first-least :
      (m : List (ℤ × V)) {e : ℤ × V}
      → IsSorted m
      → first? m ≡ some e
      → (get e.0 m ≡ some e.1) × ((k : ℤ) (v : V) → get k m ≡ some v → e.0 ≤ℤ k)
  unfolding get
  first-least [] s h = absurd (ground arith)
  first-least ((j, w) ∷ m) s h = (ground arith, λ k v g. ground (arith, get_above j k v m s.0))

  -- The last entry is found under its key, and no key is above it.
  pub last-greatest :
      (m : List (ℤ × V)) {e : ℤ × V}
      → IsSorted m
      → last? m ≡ some e
      → (get e.0 m ≡ some e.1) × ((k : ℤ) (v : V) → get k m ≡ some v → k ≤ℤ e.0)
  unfolding get last?
  last-greatest [] s h = absurd (ground arith)
  last-greatest ((j, w) ∷ m) s h = elim (Option-cases (last? m)) [
    | inl empty ↦ (ground arith, λ k v g. ground (arith, last-none m k empty))
    | inr (f, p) ↦
        let (found, top) = last-greatest m s.1 p in
        let lt = All-last (λ f. j <ℤ f.0) m f s.0 p in
        (ground arith, λ k v g. ground (arith, top k v))
  ]
