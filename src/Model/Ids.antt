-- ===== src/Model/Ids.antt =====
-- foundation/crates/coinext-model/src/identifiers.rs: identifiers are texts.
use Prim.Native.Char.{code}
use Prim.Native.String.{◌++◌}
use coinext.Prelude.{
  String, Bool, ◌&&◌, Option, none, some, nat_beq, if◌then◌else◌, ◌≡◌, ◌↔◌, arith, true,
}
use coinext.Prelude.Maps.{Eq, string_eq}

abbrev pub ClientOrderId : Type 0
ClientOrderId = String

abbrev pub VenueOrderId : Type 0
VenueOrderId = String

abbrev pub StrategyId : Type 0
StrategyId = String

abbrev pub PositionId : Type 0
PositionId = String

abbrev pub TradeId : Type 0
TradeId = String

pub record InstrumentId : Type 0 where
  pub symbol : String
  pub venue : String

abbrev pub id_beq : InstrumentId → InstrumentId → Bool
id_beq a b = string_eq.beq a.symbol b.symbol && string_eq.beq a.venue b.venue

pub id_beq_iff : (a b : InstrumentId) → (id_beq a b ≡ true) ↔ (a ≡ b)
id_beq_iff a b =
    ground (arith, string_eq.beq_iff a.symbol b.symbol, string_eq.beq_iff a.venue b.venue)

instance abbrev pub instrument_id_eq : Eq InstrumentId
instrument_id_eq = record { beq = id_beq; beq_iff = id_beq_iff }

-- `rsplit_once('.')`: around the last dot.
unfoldable pub rsplit_once : String → Option (String × String)
rsplit_once String.[] = none
rsplit_once (String.◌∷◌ c s) = elim (rsplit_once s) [
  | some (a, b) ↦ some (String.◌∷◌ c a, b)
  | none ↦ if nat_beq (code c) b'.' then some (String.[], s) else none
]

unfoldable pub parse : String → Option InstrumentId
unfolding rsplit_once
parse s = elim (rsplit_once s) [
  | none ↦ none
  | some (sym, ven) ↦ some (record { symbol = sym; venue = ven })
]

-- `Display`
unfoldable pub to_text : InstrumentId → String
to_text i = i.symbol ++ ("." ++ i.venue)
