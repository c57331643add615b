-- ===== src/Network/Send.antt =====
-- market-data/crates/coinext-network/src: `RateLimiter::acquire` and `RestClient::send`. What the venue
-- answers to the n-th attempt, the wall clock and the bucket of the limiter are parameters.
pub mod Retries
use Prim.Native.String.{String, ◌++◌}
use coinext.Prelude.{
  ℕ, zero, suc, ◌+◌, ◌-◌, ◌*◌, ◌^◌, Bool, true, false, ◌&&◌, ◌||◌, Option, none, some, List, [],
  ◌∷◌, ltb, leb, nat_beq, if◌then◌else◌,
}
use coinext.Network.{
  NetError, HttpMethod, RestConfig, RestRequest, FailureKind, status, lost, should_retry,
  build_query, signed_query, decimal, with_param, is_empty,
}

pub data NetResult (T : Type 0) : Type 0 where
  ok : T → NetResult T
  err : NetError → NetResult T

pub record RestResponse : Type 0 where
  pub status : ℕ
  pub body : String

pub record Credentials : Type 0 where
  pub api_key : Option String
  pub signer : Option (String → String)

-- What comes back of an attempt: a status with its body, a status whose body is lost, or nothing.
pub data Answer : Type 0 where
  response torn : ℕ → String → Answer
  failed : String → Answer

pub record Attempt : Type 0 where
  pub method : HttpMethod
  pub url : String
  pub key : Option String
  pub body : Option String

-- The attempts with their answers, the pauses in milliseconds, and the result.
pub record Run : Type 0 where
  pub sent : List (Attempt × Answer)
  pub pauses : List ℕ
  pub result : Option (NetResult RestResponse)

pub record RestClient : Type 0 where
  pub config : RestConfig
  pub capacity : ℕ
  pub creds : Credentials

abbrev max_u64 : ℕ
max_u64 = 2 ^ 64 - 1

-- `base * 2^(attempt - 1)` with saturation, where `attempt` counts from 1.
unfoldable pub backoff : ℕ → ℕ → ℕ
backoff base attempt =
    let shift = if ltb (attempt - 1) 16 then attempt - 1 else 16 in
    let pause = base * 2 ^ shift in if ltb max_u64 pause then max_u64 else pause

-- `none` where the cost is granted; `ready` is the answer of the bucket.
unfoldable pub acquire : ℕ → (ℕ → Bool) → ℕ → Option NetError
acquire capacity ready cost =
    if nat_beq cost 0
    then none
    else if ltb capacity cost
    then some (NetError.rate_limited 0)
    else if ready cost
    then none
    else some (NetError.rate_limited 0)

module _ (c : RestClient) (req : RestRequest) where
  abbrev signed_with : Option (String → String) → ℕ → NetResult String
  signed_with none now = err (NetError.auth "signing requested but no api secret configured")
  signed_with (some hmac) now =
      let timed =
        with_param "timestamp" (decimal 20 now)
          (with_param "recvWindow" (decimal 20 c.config.recv_window_ms) req) in
      ok (signed_query hmac timed.query)

  unfoldable pub build_query_string : ℕ → NetResult String
  unfolding build_query signed_query with_param decimal
  build_query_string now =
      if req.signed then signed_with c.creds.signer now else ok (build_query req.query)

  abbrev with_key : Bool → Option String → (String → Option String) → NetResult (Option String)
  with_key false key bad = ok none
  with_key true none bad = err (NetError.auth "api key required but none configured")
  with_key true (some key) bad = elim (bad key) [
    | none ↦ ok (some key)
    | some e ↦ err (NetError.auth ("bad api key header: " ++ e))
  ]

  abbrev url_of : String → String
  url_of query =
      let base = c.config.base_url ++ req.path in
      if is_empty query then base else base ++ ("?" ++ query)

  abbrev attempt_of : NetResult String → NetResult (Option String) → NetResult Attempt
  attempt_of (err e) key = err e
  attempt_of (ok query) (err e) = err e
  attempt_of (ok query) (ok key) =
      ok (record { method = req.method; url = url_of query; key = key; body = req.body })

  module _ (bad_header : String → Option String) (now_ms : ℕ → ℕ) (venue : ℕ → Answer) where
    unfoldable pub prepare : ℕ → NetResult Attempt
    unfolding build_query_string
    prepare attempt =
        attempt_of (build_query_string (now_ms attempt))
          (with_key (req.signed || req.api_key) c.creds.api_key bad_header)

    abbrev pub ended : List (Attempt × Answer) → NetResult RestResponse → Run
    ended sent result = record { sent = sent; pauses = []; result = some result }

    -- The attempt is made again after a pause.
    abbrev pub again : Attempt × Answer → ℕ → Run → Run
    again sent attempt rest = record rest {
      sent = sent ∷ rest.sent;
      pauses = backoff c.config.base_backoff_ms (attempt + 1) ∷ rest.pauses;
    }

    abbrev pub retried : Bool → NetError → Attempt × Answer → ℕ → Run → Run
    retried true e sent attempt rest = again sent attempt rest
    retried false e sent attempt rest = ended (sent ∷ []) (err e)

    abbrev pub is_success : ℕ → Bool
    is_success s = leb 200 s && ltb s 300

    abbrev pub answered : Attempt → ℕ → Answer → Run → Run
    answered a attempt (response s body) rest =
        let here : Attempt × Answer = (a, response s body) in
        if is_success s
        then ended (here ∷ []) (ok (record { status = s; body = body }))
        else retried (should_retry req.idempotent (status s) attempt c.config.max_retries)
            (NetError.http s body) here attempt rest
    answered a attempt (torn s e) rest = ended ((a, torn s e) ∷ []) (err (NetError.transport e))
    answered a attempt (failed e) rest =
        retried (should_retry req.idempotent lost attempt c.config.max_retries)
          (NetError.transport e) (a, failed e) attempt rest

    abbrev pub attempted : NetResult Attempt → ℕ → Run → Run
    attempted (err e) attempt rest = ended [] (err e)
    attempted (ok a) attempt rest = answered a attempt (venue attempt) rest

    -- The loop from an attempt on; `none` where the bound on its turns is reached.
    unfoldable pub send_loop : ℕ → ℕ → Run
    unfolding prepare should_retry backoff
    send_loop zero attempt = record { sent = []; pauses = []; result = none }
    send_loop (suc turns) attempt =
        attempted (prepare attempt) attempt (send_loop turns (attempt + 1))

    abbrev sent_if : Option NetError → Run
    sent_if none = send_loop (c.config.max_retries + 1) 0
    sent_if (some e) = ended [] (err e)

    unfoldable pub send : (ℕ → Bool) → Run
    unfolding acquire send_loop
    send ready = sent_if (acquire c.capacity ready req.weight)
