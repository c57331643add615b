-- ===== src/Core/Clock/Peek.antt =====
-- foundation/crates/coinext-core/src/clock.rs: `peek_next_timer` against `pop_due`.
use coinext.Prelude.{
  ℕ, ◌<◌, ◌≡◌, refl, sym, ◌∙◌, ◌≢◌, Bool, not, none, some, List, [], ◌∷◌, String, arith, keep,
  Option-cases, inl, inr,
}
use coinext.Prelude.Maps.{nat_eq, contains}
use coinext.Core.Time.{UnixNanos}
use coinext.Core.Clock.{HistoricalClock, min_time, peek_next_timer, pop_due}
use coinext.Core.Clock.Due.{Entry, IsValid, fires, pop_due_lem}

abbrev is_live : List ℕ → Entry → Bool
is_live cancelled e = not (contains e.1 cancelled)

-- Without a live timer nothing fires.
no_timer_left :
    (frontier : UnixNanos) (cancelled : List ℕ) (names : List (ℕ × String)) (h : List Entry)
    → min_time (keep (is_live cancelled) h) ≡ none
    → fires frontier cancelled names h ≡ []
unfolding keep min_time
no_timer_left frontier cancelled names [] e = refl
no_timer_left frontier cancelled names ((ts, id) ∷ h) e =
    ground (arith, no_timer_left frontier cancelled names h)

-- Nothing fires before the least time of a live timer.
quiet_before :
    (frontier : UnixNanos) (cancelled : List ℕ) (names : List (ℕ × String)) (h : List Entry)
    {t : UnixNanos}
    → min_time (keep (is_live cancelled) h) ≡ some t
    → frontier < t
    → fires frontier cancelled names h ≡ []
unfolding keep min_time
quiet_before frontier cancelled names [] e l = cc
quiet_before frontier cancelled names ((ts, id) ∷ h) e l =
    elim (Option-cases (min_time (keep (is_live cancelled) h))) [
      | inl n ↦ ground (arith, no_timer_left frontier cancelled names h n)
      | inr (t', p) ↦ ground (arith, quiet_before frontier cancelled names h p)
    ]

fires_at :
    (cancelled : List ℕ) (names : List (ℕ × String)) (h : List Entry) {t : UnixNanos}
    → min_time (keep (is_live cancelled) h) ≡ some t
    → fires t cancelled names h ≢ []
unfolding keep min_time
fires_at cancelled names [] e n = cc
fires_at cancelled names ((ts, id) ∷ h) {t} e n =
    elim (Option-cases (min_time (keep (is_live cancelled) h))) [
      | inl none_live ↦ ground arith
      | inr (t', p) ↦ ground (arith, fires_at cancelled names h p)
    ]

-- `peek_next_timer` is exact: with no time to report, `pop_due` fires nothing at any frontier; a time
-- that it reports is the least frontier at which `pop_due` fires something.
pub peek_exact :
    (c : HistoricalClock)
    → IsValid c
    → (peek_next_timer c ≡ none → (frontier : UnixNanos) → (pop_due c frontier).1 ≡ [])
      × ((t : UnixNanos)
          → peek_next_timer c ≡ some t
          → ((pop_due c t).1 ≢ [])
            × ((frontier : UnixNanos) → frontier < t → (pop_due c frontier).1 ≡ []))
unfolding peek_next_timer
peek_exact c v = (
  λ e frontier. (pop_due_lem c frontier v).0 ∙ no_timer_left frontier c.cancelled c.names c.heap e,
  λ t e. (
    λ n. fires_at c.cancelled c.names c.heap e (sym (pop_due_lem c t v).0 ∙ n),
    λ frontier l.
        (pop_due_lem c frontier v).0 ∙ quiet_before frontier c.cancelled c.names c.heap e l,
  ),
)
