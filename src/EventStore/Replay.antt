-- ===== src/EventStore/Replay.antt =====
-- operations-interface/crates/coinext-persistence/src/event_store.rs: what `replay` gives after `append`.
use Prim.Native.String.{String}
use coinext.Prelude.{
  ℕ, ◌≤◌, ◌<◌, ◌≡◌, ◌≢◌, refl, sym, ap, ◌∙◌, subst, ◌⊎◌, true, false, none, List, [], ◌∷◌, ◌++◌,
  inl, inr, Bool-cases, keep, All, All-mono, leb, arith,
}
use coinext.Prelude.Maps.{string_eq}
use coinext.Core.Decimal.{Decimals}
use coinext.Core.Time.{UnixNanos}
use coinext.Model.Ids.{ClientOrderId, StrategyId}
use coinext.Model.Order.{OrderEvent}
use coinext.Kernel.Build.{place, sort_by_key}
use coinext.EventStore.{
  PersistError, PersistResult, ok, err, Row, is_of, next_seq, stream, Codec, append, decode_all,
  replay,
}

abbrev Below : ℕ → Row → Type 0
Below n r = r.seq < n

next_seq_bounds :
    (r : Row) (rs : List Row) → (r.seq < next_seq (r ∷ rs)) × (next_seq rs ≤ next_seq (r ∷ rs))
unfolding next_seq
next_seq_bounds r rs = ground arith

next_seq-Below : (rs : List Row) → All (Below (next_seq rs)) rs
next_seq-Below [] = tt
next_seq-Below (r ∷ rs) =
    let (head, tail) = next_seq_bounds r rs in
    (head, All-mono (λ x h. omega (arith, h, tail)) rs (next_seq-Below rs))

place-All :
    (P : Row → Type 0) (x : Row) (rs : List Row) → P x → All P rs → All P (place (λ r. r.seq) x rs)
unfolding place
place-All P x [] p h = (p, tt)
place-All P x (r ∷ rs) p h = elim (Bool-cases (leb x.seq r.seq)) [
  | inl e ↦ rw e (p, h)
  | inr e ↦ rw e (h.0, place-All P x rs p h.1)
]

sort_by_key-All :
    (P : Row → Type 0) (rs : List Row) → All P rs → All P (sort_by_key (λ r. r.seq) rs)
unfolding sort_by_key
sort_by_key-All P [] h = tt
sort_by_key-All P (r ∷ rs) h =
    place-All P r (sort_by_key (λ r. r.seq) rs) h.0 (sort_by_key-All P rs h.1)

stream-Below :
    (id : ClientOrderId) (rows : List Row)
    → All (Below (next_seq (keep (is_of id) rows))) (stream id rows)
unfolding stream
stream-Below id rows =
    sort_by_key-All (Below (next_seq (keep (is_of id) rows))) (keep (is_of id) rows)
      (next_seq-Below (keep (is_of id) rows))

place_last :
    (x : Row) (rs : List Row) → All (Below x.seq) rs → place (λ r. r.seq) x rs ≡ rs ++ (x ∷ [])
unfolding place
place_last x [] h = refl
place_last x (r ∷ rs) h = elim (Bool-cases (leb x.seq r.seq)) [
  | inl e ↦ absurd (ground (arith, e, h.0))
  | inr e ↦ rw e (ap (λ ys. r ∷ ys) (place_last x rs h.1))
]

stream-other :
    (id other : ClientOrderId) (r : Row) (rows : List Row)
    → is_of other r ≡ false
    → stream other (r ∷ rows) ≡ stream other rows
unfolding stream keep
stream-other id other r rows e = rw e refl

stream-same :
    (id : ClientOrderId) (r : Row) (rows : List Row)
    → is_of id r ≡ true
    → r.seq ≡ next_seq (keep (is_of id) rows)
    → stream id (r ∷ rows) ≡ stream id rows ++ (r ∷ [])
unfolding stream keep sort_by_key
stream-same id r rows e f = rw e (
    place_last r (stream id rows)
      (subst (λ n. All (Below n) (stream id rows)) (sym f) (stream-Below id rows)))

same_id : (id : ClientOrderId) → string_eq.beq id id ≡ true
same_id id = (string_eq.beq_iff id id).1 refl

other_id : (id other : ClientOrderId) → id ≢ other → string_eq.beq id other ≡ false
other_id id other h = elim (Bool-cases (string_eq.beq id other)) [
  | inl e ↦ absurd (h ((string_eq.beq_iff id other).0 e))
  | inr e ↦ e
]

module _ {T : Type 0} where
  PersistResult-cases :
      (r : PersistResult T) → ((x : T) × (r ≡ ok x)) ⊎ ((e : PersistError) × (r ≡ err e))
  PersistResult-cases (ok x) = inl (x, refl)
  PersistResult-cases (err e) = inr (e, refl)

module _ ⦃d : Decimals⦄ (codec : Codec) where
  -- What `decode_all` gives of one more row.
  unfoldable pub followed :
      PersistResult (List OrderEvent) → OrderEvent → PersistResult (List OrderEvent)
  followed (ok events) event = ok (events ++ (event ∷ []))
  followed (err e) event = err e

  decode_all-append :
      (r : Row) (event : OrderEvent) (rows : List Row)
      → codec.decode r.event_json ≡ ok event
      → decode_all codec (rows ++ (r ∷ [])) ≡ followed (decode_all codec rows) event
  unfolding decode_all followed
  decode_all-append r event [] e = rw e refl
  decode_all-append r event (x ∷ rows) e = elim (PersistResult-cases (codec.decode x.event_json)) [
    | inr (f, g) ↦ rw g refl
    | inl (y, g) ↦ rw g (
        rw (decode_all-append r event rows e) (elim (PersistResult-cases (decode_all codec rows)) [
          | inl (ys, k) ↦ rw k refl
          | inr (f, k) ↦ rw k refl
        ]))
  ]

  -- An event that is appended is replayed last in the stream of its order, whose other events are replayed as
  -- before, and no other stream changes; the number returned is above those of the stream.
  pub replay-append :
      (strategy : StrategyId) (id : ClientOrderId) (event : OrderEvent) (text : String)
      (ts : UnixNanos) (rows : List Row)
      → codec.encode event ≡ ok text
      → codec.decode text ≡ ok event
      → (replay codec id (append codec none strategy id event ts rows).0
          ≡ followed (replay codec id rows) event)
        × ((other : ClientOrderId)
            → id ≢ other
            → replay codec other (append codec none strategy id event ts rows).0
              ≡ replay codec other rows)
        × ((n : ℕ) × (((append codec none strategy id event ts rows).1 ≡ ok n)
              × All (Below n) (stream id rows)))
  unfolding append replay
  replay-append strategy id event text ts rows e f = rw e (
    ap (decode_all codec) (stream-same id _ rows (same_id id) refl)
        ∙ decode_all-append _ event (stream id rows) f,
    (λ other h. ap (decode_all codec) (stream-other id other _ rows (other_id id other h))),
    (next_seq (keep (is_of id) rows), (refl, stream-Below id rows)),
  )
