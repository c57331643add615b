-- ===== src/Exec/Session/Days.antt =====
-- execution-live/crates/coinext-exec-engine/src/lib.rs: session days, and the close that the daily price
-- limit is measured from.
use coinext.Prelude.{
  ℕ, zero, suc, ◌+◌, ◌-◌, ◌*◌, ◌/◌, ◌%◌, ◌^◌, ◌↔◌, ◌≤◌, ◌<◌, ◌≡◌, subst, false, Option, none, some,
  List, arith, ltb, Bool-cases, Option-cases, inl, inr,
}
use coinext.Prelude.Maps.{get}
use coinext.Core.Decimal.{Decimals}
use coinext.Core.Time.{UnixNanos}
use coinext.Model.Ids.{InstrumentId}
use coinext.Exec.{ExecutionEngine}
use coinext.Exec.Session.{day_key_utc, day_key_shanghai, prev_close_for, walk_back, usable, day_eq}

-- The Shanghai day of an instant is the UTC day eight hours later, so the two differ exactly in the
-- last eight hours of a UTC day, for the times of a u64.
pub day_key_shanghai_utc :
    (now : UnixNanos)
    → now < 2 ^ 64
    → (day_key_shanghai now ≡ day_key_utc (now + 8 * 3600 * 1000000000))
      × ((day_key_shanghai now ≡ day_key_utc now) ↔ (now / 1000000000 % 86400 < 57600))
unfolding day_key_utc day_key_shanghai
day_key_shanghai_utc now h =
    (omega (arith, h), (λ e. omega (arith, h, e), λ e. omega (arith, h, e)))

module _ ⦃d : Decimals⦄ where
  abbrev pub close_at : InstrumentId → ℕ → List ((InstrumentId × ℕ) × d.Decimal) → Option d.Decimal
  close_at id day closes = usable (get (id, day) closes)

  earliest : (a b : ℕ) → a ≤ b → ltb a b ≡ false → a ≡ b
  earliest a b h k = ground arith

  walk_back_lem :
      (n back : ℕ) (id : InstrumentId) (day : ℕ) (closes : List ((InstrumentId × ℕ) × d.Decimal))
      (px : d.Decimal)
      → walk_back n back id day closes ≡ some px
      → (k : ℕ) × (back ≤ k)
        × (k < back + n)
        × (k ≤ day)
        × (close_at id (day - k) closes ≡ some px)
        × ((j : ℕ) → back ≤ j → j < k → close_at id (day - j) closes ≡ none)
  unfolding walk_back
  walk_back_lem zero back id day closes px h = absurd (ground arith)
  walk_back_lem (suc n) back id day closes px h = elim (Bool-cases (ltb day back)) [
    | inl b ↦ absurd (ground (arith, b, h))
    | inr b ↦ elim (Option-cases (close_at id (day - back) closes)) [
      | inr (a, c) ↦ (
        back,
        omega arith,
        omega arith,
        ground (arith, b),
        ground (arith, b, c, h),
        λ j p q. absurd (omega (arith, p, q)),
      )
      | inl c ↦
          let (k, p, q, r, e, none_before) =
            walk_back_lem n (suc back) id day closes px (ground (arith, b, c, h)) in
          (
            k,
            omega (arith, p),
            omega (arith, q),
            r,
            e,
            λ j x y. elim (Bool-cases (ltb back j)) [
              | inl t ↦ none_before j (ground (arith, t)) y
              | inr t ↦ subst (λ i. close_at id (day - i) closes ≡ none) (earliest back j x t) c
            ],
          )
    ]
  ]

  -- The previous close is the last close above zero of an earlier day, at most 40 days back: every day
  -- between has none.
  pub prev_close_for_lem :
      (id : InstrumentId) (day : ℕ) (e : ExecutionEngine) (px : d.Decimal)
      → prev_close_for id day e ≡ some px
      → (k : ℕ) × (1 ≤ k)
        × (k ≤ 40)
        × (k ≤ day)
        × (close_at id (day - k) e.close_by_day ≡ some px)
        × ((j : ℕ) → 1 ≤ j → j < k → close_at id (day - j) e.close_by_day ≡ none)
  unfolding prev_close_for
  prev_close_for_lem id day e px h =
      let (k, p, q, r, c, before) = walk_back_lem 40 1 id day e.close_by_day px h in
      (k, p, omega (arith, q), r, c, before)
