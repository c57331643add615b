-- ===== src/Kernel/Step/Passing.antt =====
-- backtesting-simulation/crates/coinext-kernel/src/backtest.rs: the lists of what is to come, and what a
-- frontier passes of them.
use coinext.Prelude.{
  ◌≤◌, ◌≡◌, ◌++◌, All, All-mono, All-append, refl, sym, ap, subst, List, [], ◌∷◌, Option, some,
  none, inl, inr, Bool-cases, ltb, nat_beq, if◌then◌else◌, arith,
}
use coinext.Core.Clock
use coinext.Core.Clock.{HistoricalClock}
use coinext.Core.Time.{UnixNanos}
use coinext.Model.Ids.{InstrumentId}
use coinext.Model.MarketData.{MarketEvent, ts_event}
use coinext.Kernel.Settle.Frame.{later}
use coinext.Kernel.Step.{next_market, earliest}

abbrev pub later_time : UnixNanos → UnixNanos → UnixNanos
later_time now t = if ltb now t then t else now

-- In order of time, and none before `now`.
unfoldable pub From : {A : Type 0} → (A → UnixNanos) → UnixNanos → List A → Type 0
From time now [] = Unit
From time now (x ∷ xs) = (now ≤ time x) × From time (time x) xs

abbrev pub expiry_time : UnixNanos × InstrumentId → UnixNanos
expiry_time e = e.0

-- The events that stay after a round at a frontier.
abbrev pub rest_of : UnixNanos → List MarketEvent → List MarketEvent
rest_of frontier [] = []
rest_of frontier (ev ∷ evs) = if nat_beq (ts_event ev) frontier then evs else ev ∷ evs

pub advance_to_now :
    (c : HistoricalClock) (t : UnixNanos) → (Clock.advance_to c t).now ≡ later_time c.now t
unfolding Clock.advance_to
advance_to_now c t = elim (Bool-cases (ltb c.now t)) [ inl e ↦ rw e refl | inr e ↦ rw e refl ]

pub From-later :
    (t now : UnixNanos) (es : List (UnixNanos × InstrumentId))
    → From expiry_time now es
    → From expiry_time (later_time now t) (later t es)
unfolding From
From-later t now [] f = tt
From-later t now ((ts, id) ∷ es) f = elim (Bool-cases (ltb t ts)) [
  | inl e ↦ rw e (ground arith, f.1)
  | inr e ↦
      let same : later_time ts t ≡ later_time now t = ground arith in
      rw e (subst (λ a. From expiry_time a (later t es)) same (From-later t ts es f.1))
]

-- Where the frontier is not after the first event, a round keeps what is left in time.
pub From-rest_of :
    (t now : UnixNanos) (evs : List MarketEvent)
    → ((a : UnixNanos) → next_market evs ≡ some a → t ≤ a)
    → From ts_event now evs
    → From ts_event (later_time now t) (rest_of t evs)
unfolding From ts_event
From-rest_of t now [] least f = tt
From-rest_of t now (ev ∷ evs) least f = elim (Bool-cases (nat_beq (ts_event ev) t)) [
  | inl e ↦
      let same : ts_event ev ≡ later_time now t = ground (arith, least (ts_event ev) refl) in
      rw e (subst (λ a. From ts_event a evs) same f.1)
  | inr e ↦ rw e (ground (arith, least (ts_event ev) refl), f.1)
]

pub earliest_least :
    (a b : Option UnixNanos) {t : UnixNanos}
    → earliest a b ≡ some t
    → ((x : UnixNanos) → a ≡ some x → t ≤ x) × ((x : UnixNanos) → b ≡ some x → t ≤ x)
earliest_least none b e = (λ x q. cc, λ x q. ground arith)
earliest_least (some a) none e = (λ x q. ground arith, λ x q. cc)
earliest_least (some a) (some b) e = (λ x q. ground arith, λ x q. ground arith)

pub earliest_right :
    (a b : Option UnixNanos) {x : UnixNanos}
    → b ≡ some x
    → (y : UnixNanos) × ((earliest a b ≡ some y) × (y ≤ x))
earliest_right none b {x} e = (x, (e, omega arith))
earliest_right (some a) none e = cc
earliest_right (some a) (some b) {x} e = (if ltb b a then b else a, (refl, ground arith))

pub earliest-none : (a b : Option UnixNanos) → earliest a b ≡ none → (a ≡ none) × (b ≡ none)
earliest-none none b e = (refl, e)
earliest-none (some a) none e = cc
earliest-none (some a) (some b) e = cc

-- A first part of the list is gone, all of it at one time.
pub Taken : {A : Type 0} → (A → UnixNanos) → UnixNanos → List A → List A → Type 0
Taken {A} time now xs ys = (gone : List A) × ((xs ≡ gone ++ ys) × All (λ x. time x ≡ now) gone)

pub Taken_by :
    {A : Type 0} (time : A → UnixNanos) (now last : UnixNanos) (xs ys : List A)
    → Taken time now xs ys
    → now ≤ last
    → All (λ x. time x ≤ last) ys
    → All (λ x. time x ≤ last) xs
unfolding Taken
Taken_by time now last xs ys t le rest = subst (All (λ x. time x ≤ last)) (sym t.1.0) (
    All-append (λ x. time x ≤ last) t.0 ys (All-mono (λ x (q : time x ≡ now). rw q le) t.0 t.1.1)
      rest)

pub From_sooner :
    {A : Type 0} (time : A → UnixNanos) (t now : UnixNanos) (xs : List A)
    → ((x : A) (ys : List A) → xs ≡ x ∷ ys → t ≤ time x)
    → From time now xs
    → From time t xs
unfolding From
From_sooner time t now [] least f = tt
From_sooner time t now (x ∷ xs) least f = (least x xs refl, f.1)

pub later-Taken :
    (t now : UnixNanos) (es : List (UnixNanos × InstrumentId))
    → From expiry_time now es
    → From expiry_time t es
    → Taken expiry_time (later_time now t) es (later t es)
unfolding From Taken
later-Taken t now [] f g = ([], (refl, tt))
later-Taken t now ((ts, id) ∷ es) f g = elim (Bool-cases (ltb t ts)) [
  | inl e ↦ rw e ([], (refl, tt))
  | inr e ↦
      let at : ts ≡ t = ground (arith, g.0) in
      let same : later_time ts t ≡ later_time now t = ground (arith, f.0) in
      let rest = later-Taken t ts es f.1 (subst (λ a. From expiry_time a es) at f.1) in
      let goal =
        subst (λ a. All (λ x. expiry_time x ≡ a) ((ts, id) ∷ rest.0)) same
          ((ground (arith, g.0), rest.1.1)) in
      rw e ((ts, id) ∷ rest.0, (ap (λ l. (ts, id) ∷ l) rest.1.0, goal))
]

pub rest_of-Taken :
    (t now : UnixNanos) (evs : List MarketEvent)
    → From ts_event now evs
    → Taken ts_event (later_time now t) evs (rest_of t evs)
unfolding From Taken ts_event
rest_of-Taken t now [] f = ([], (refl, tt))
rest_of-Taken t now (ev ∷ evs) f = elim (Bool-cases (nat_beq (ts_event ev) t)) [
  | inl e ↦ rw e (ev ∷ [], (refl, (ground (arith, f.0), tt)))
  | inr e ↦ rw e ([], (refl, tt))
]
