-- ===== src/Tests/Network.antt =====
-- The theorems on the REST client at concrete inputs.
use Prim.Native.String.{String}
use coinext.Prelude.{ℕ, ◌≡◌, refl, zero, suc, true, none, some, Option, [], ◌∷◌, Bool}
use coinext.Network.{
  NetError, HttpMethod, RestRequest, default_config, signed_request, with_param, build_query,
}
use coinext.Network.Send.{err, Answer, response, RestClient, Run, send}
use coinext.Network.Send.Retries.{Ends, RefusedBefore, send-Ends, send-RefusedBefore}

abbrev client : RestClient
unfolding default_config
client = record {
  config = record default_config { base_url = "https://api.binance.com" };
  capacity = 1200;
  creds = record { api_key = some "KEY"; signer = some (λ text. "00") };
}

abbrev order : RestRequest
unfolding with_param signed_request
order = with_param "symbol" "BTC USDT" (signed_request HttpMethod.post "/api/v3/order" 1)

abbrev accepts : String → Option String
accepts key = none

abbrev clock : ℕ → ℕ
clock attempt = 1700000000000

-- Too many requests at first, then an error of the server.
abbrev venue : ℕ → Answer
venue zero = response 429 ""
venue (suc n) = response 503 "busy"

abbrev granted : ℕ → Bool
granted cost = true

abbrev sent : Run
sent = send client order accepts clock venue granted

encoded : build_query order.query ≡ "symbol=BTC%20USDT"
unfolding build_query with_param signed_request
encoded = refl

stops : Run.result sent ≡ some (err (NetError.http 503 "busy"))
unfolding send with_param signed_request default_config
stops = refl

pauses : Run.pauses sent ≡ 100 ∷ []
unfolding send with_param signed_request default_config
pauses = refl

send-Ends_example : Ends 4 (send client order accepts clock venue granted)
unfolding send order client
send-Ends_example = send-Ends client order accepts clock venue granted

send-RefusedBefore_example :
    RefusedBefore (Run.sent (send client order accepts clock venue granted))
unfolding order
send-RefusedBefore_example = send-RefusedBefore client order accepts clock venue granted refl
