-- ===== src/EventStore.antt =====
-- operations-interface/crates/coinext-persistence/src: error.rs, and `append` and `replay` of event_store.rs.
-- The table of SQLite is a list of rows without an order of its own; the codec of serde_json and the faults
-- of SQLite are parameters.
pub mod Replay
pub mod Log
use Prim.Native.String.{String}
use coinext.Prelude.{ℕ, ◌+◌, Bool, Option, none, some, List, [], ◌∷◌, ltb, keep, if◌then◌else◌}
use coinext.Prelude.Maps.{Eq, string_eq}
use coinext.Core.Decimal.{Decimals}
use coinext.Core.Time.{UnixNanos}
use coinext.Model.Ids.{ClientOrderId, StrategyId}
use coinext.Model.Order.{OrderEvent}
use coinext.Kernel.Build.{sort_by_key}

pub data PersistError : Type 0 where
  sqlite json io parquet corrupt : String → PersistError

pub data PersistResult (T : Type 0) : Type 0 where
  ok : T → PersistResult T
  err : PersistError → PersistResult T

-- A row of `order_events`.
pub record Row : Type 0 where
  pub strategy_id : StrategyId
  pub client_order_id : ClientOrderId
  pub seq : ℕ
  pub ts : UnixNanos
  pub event_json : String

abbrev pub is_of : ClientOrderId → Row → Bool
is_of id r = string_eq.beq r.client_order_id id

-- `COALESCE(MAX(seq) + 1, 0)`
unfoldable pub next_seq : List Row → ℕ
next_seq [] = 0
next_seq (r ∷ rs) = let m = next_seq rs in if ltb m (r.seq + 1) then r.seq + 1 else m

-- `ORDER BY seq ASC`
unfoldable pub stream : ClientOrderId → List Row → List Row
unfolding sort_by_key
stream id rows = sort_by_key (λ r. r.seq) (keep (is_of id) rows)

module _ ⦃d : Decimals⦄ where
  pub record Codec : Type 0 where
    pub encode : OrderEvent → PersistResult String
    pub decode : String → PersistResult OrderEvent

  module _ (codec : Codec) where
    abbrev inserted :
        PersistResult String
        → Option String
        → StrategyId
        → ClientOrderId
        → UnixNanos
        → List Row
        → List Row × PersistResult ℕ
    inserted (err e) fault strategy id ts rows = (rows, err e)
    inserted (ok event) (some fault) strategy id ts rows = (rows, err (sqlite fault))
    inserted (ok event) none strategy id ts rows =
        let n : ℕ = next_seq (keep (is_of id) rows) in
        (
          record {
            strategy_id = strategy;
            client_order_id = id;
            seq = n;
            ts = ts;
            event_json = event;
          }
              ∷ rows,
          ok n,
        )

    -- A statement that SQLite refuses leaves the table as it was.
    unfoldable pub append :
        Option String
        → StrategyId
        → ClientOrderId
        → OrderEvent
        → UnixNanos
        → List Row
        → List Row × PersistResult ℕ
    unfolding next_seq keep
    append fault strategy id event ts rows = inserted (codec.encode event) fault strategy id ts rows

    abbrev pub and_event :
        PersistResult OrderEvent → PersistResult (List OrderEvent) → PersistResult (List OrderEvent)
    and_event (err e) rest = err e
    and_event (ok event) (err e) = err e
    and_event (ok event) (ok events) = ok (event ∷ events)

    unfoldable pub decode_all : List Row → PersistResult (List OrderEvent)
    decode_all [] = ok []
    decode_all (r ∷ rs) = and_event (codec.decode r.event_json) (decode_all rs)

    unfoldable pub replay : ClientOrderId → List Row → PersistResult (List OrderEvent)
    unfolding stream decode_all
    replay id rows = decode_all (stream id rows)
