-- ===== src/Tests/EventStore.antt =====
-- The theorem on the event store at a concrete log.
use Prim.Native.String.{String, ◌++◌}
use coinext.Prelude.{ℕ, ◌≡◌, refl, List, [], ◌∷◌, All, if◌then◌else◌}
use coinext.Prelude.Maps.{string_eq}
use coinext.Model.Order.{OrderEvent}
use coinext.EventStore.{PersistError, PersistResult, ok, err, Codec, replay}
use coinext.EventStore.Log.{Call, Reads, events_of, logged, replay-logged}
use coinext.Tests.Sample.{sample_decimals}

-- Writes the acceptances and cancellations of one instant.
abbrev encode : OrderEvent → PersistResult String
encode (OrderEvent.accepted venue ts) = ok ("+" ++ venue)
encode (OrderEvent.canceled ts) = ok "-"
encode _ = err (PersistError.json "unknown")

abbrev decode : String → PersistResult OrderEvent
decode text =
    if string_eq.beq text "-"
    then ok (OrderEvent.canceled 9)
    else if string_eq.beq text "+V1"
    then ok (OrderEvent.accepted "V1" 5)
    else err (PersistError.json "unknown")

abbrev codec : Codec
codec = record { encode = encode; decode = decode }

abbrev call : String → OrderEvent → ℕ → Call
call id event ts = record { strategy_id = "s"; client_order_id = id; event = event; ts = ts }

abbrev calls : List Call
calls =
    call "A" (OrderEvent.accepted "V1" 5) 5
    ∷ call "B" (OrderEvent.accepted "V1" 5) 6
    ∷ call "A" (OrderEvent.canceled 9) 9
    ∷ []

accepted-Reads : Reads codec (OrderEvent.accepted "V1" 5)
accepted-Reads = record { text = "+V1"; written = refl; read = refl }

calls-Reads : All (λ c. Reads codec (Call.event c)) calls
calls-Reads =
    (accepted-Reads, (accepted-Reads, (record { text = "-"; written = refl; read = refl }, tt)))

replays : events_of "A" calls ≡ OrderEvent.accepted "V1" 5 ∷ OrderEvent.canceled 9 ∷ []
unfolding events_of
replays = refl

replay-logged_example : replay codec "A" (logged codec calls []) ≡ ok (events_of "A" calls)
replay-logged_example = replay-logged codec "A" calls calls-Reads
