-- ===== src/DepthBook/Contiguous.antt =====
-- market-data/crates/coinext-adapters-binance/src/book.rs: the updates that a book applies leave no gap.
use coinext.Prelude.{
  ℕ, ◌+◌, ◌≤◌, ◌<◌, ◌≡◌, refl, ap, ◌⊎◌, ◌≢◌, ◌&&◌, any, All, Bool, true, false, some, List, [], ◌∷◌,
  arith, leb, if◌then◌else◌, Bool-cases, Option-cases, inl, inr,
}
use coinext.DepthBook.{
  DepthUpdate, ApplyOutcome, applied, skipped, resync, LocalOrderBook, apply_diff, check_first,
  check_next,
}

-- What the venue promises of an update: the id it names as previous is the one before its first.
abbrev pub Honest : DepthUpdate → Type 0
Honest u =
    (u.first_update_id ≤ u.last_update_id)
    × ((p : ℕ) → u.prev_update_id ≡ some p → u.first_update_id ≡ p + 1)

-- An update that is applied covers the id after the last one, or starts with it on a synced book, and
-- moves the book on to its own last id; the last id never goes back; a book is synced exactly if it
-- applied the update or was synced and skipped it.
pub apply_diff_lem :
    (u : DepthUpdate) (b : LocalOrderBook)
    → Honest u
    → ((apply_diff u b).1 ≡ applied
        → (u.first_update_id ≤ b.last_update_id + 1)
          × (b.last_update_id < u.last_update_id)
          × ((apply_diff u b).0 ≡ record { last_update_id = u.last_update_id; synced = true })
          × (b.synced ≡ true → u.first_update_id ≡ b.last_update_id + 1))
      × ((apply_diff u b).1 ≡ skipped
          → (u.last_update_id ≤ b.last_update_id) × ((apply_diff u b).0 ≡ b))
      × ((apply_diff u b).1 ≡ resync
          → (b.last_update_id < u.last_update_id)
            × ((apply_diff u b).0 ≡ record b { synced = false })
            × (b.synced ≡ true → u.first_update_id ≢ b.last_update_id + 1)
            × (b.synced ≡ false → b.last_update_id + 1 < u.first_update_id))
unfolding apply_diff check_first check_next
apply_diff_lem u b h = elim (Option-cases u.prev_update_id) [
  | inl n ↦ ground (arith, n, h)
  | inr (p, n) ↦ ground (arith, n, h.0, h.1 p n)
]

abbrev is_applied : ApplyOutcome → Bool
is_applied applied = true
is_applied _ = false

outcome_cases : (x : ApplyOutcome) → (x ≡ applied) ⊎ ((x ≡ skipped) ⊎ (x ≡ resync))
outcome_cases applied = inl refl
outcome_cases skipped = inr (inl refl)
outcome_cases resync = inr (inr refl)

-- A run over updates: the book at its end, and the updates that it applied.
unfoldable pub run : List DepthUpdate → LocalOrderBook → LocalOrderBook
run [] b = b
run (u ∷ us) b = run us (apply_diff u b).0

unfoldable pub taken : List DepthUpdate → LocalOrderBook → List DepthUpdate
taken [] b = []
taken (u ∷ us) b =
    let rest = taken us (apply_diff u b).0 in
    if is_applied (apply_diff u b).1 then u ∷ rest else rest

abbrev pub covers : ℕ → DepthUpdate → Bool
covers i u = leb u.first_update_id i && leb i u.last_update_id

later :
    (b : LocalOrderBook) (u : DepthUpdate) (i : ℕ)
    → b.last_update_id ≡ u.last_update_id
    → leb i u.last_update_id ≡ false
    → b.last_update_id < i
later b u i l t = ground arith

step_cases :
    (u : DepthUpdate) (b : LocalOrderBook)
    → Honest u
    → ((is_applied (apply_diff u b).1 ≡ true)
        × (u.first_update_id ≤ b.last_update_id + 1)
        × ((apply_diff u b).0.last_update_id ≡ u.last_update_id))
      ⊎ ((is_applied (apply_diff u b).1 ≡ false)
          × ((apply_diff u b).0.last_update_id ≡ b.last_update_id))
step_cases u b h =
    let lem = apply_diff_lem u b h in
    elim (outcome_cases (apply_diff u b).1) [
      | inl a ↦ inl (ground (arith, a), (lem.0 a).0, ap (λ x. x.last_update_id) (lem.0 a).2)
      | inr (inl k) ↦ inr (ground (arith, k), ap (λ x. x.last_update_id) (lem.1 k).1)
      | inr (inr r) ↦ inr (ground (arith, r), ap (λ x. x.last_update_id) (lem.2 r).1)
    ]

-- Every id between the last id of a book and the last id at the end of a run lies in an update that
-- the run applied, whatever else was skipped or asked for a new snapshot: no id is lost.
pub run-covers :
    (us : List DepthUpdate) (b : LocalOrderBook) (i : ℕ)
    → All Honest us
    → b.last_update_id < i
    → i ≤ (run us b).last_update_id
    → any (covers i) (taken us b) ≡ true
unfolding run taken
run-covers [] b i h lo hi = absurd (omega (arith, lo, hi))
run-covers (u ∷ us) b i h lo hi =
    let ih = run-covers us (apply_diff u b).0 i h.1 in
    elim (step_cases u b h.0) [
      | inr (a, l) ↦ rw a (ih (omega (arith, l, lo)) hi)
      | inl (a, f, l) ↦ elim (Bool-cases (leb i u.last_update_id)) [
        | inl t ↦ ground (arith, a, t, f, lo)
        | inr t ↦ let lo' = later (apply_diff u b).0 u i l t in ground (arith, a, ih lo' hi)
      ]
    ]
