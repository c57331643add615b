-- ===== src/Network/Send/Retries.antt =====
-- market-data/crates/coinext-network/src/rest.rs: the attempts that `RestClient::send` makes.
use Prim.Native.String.{String}
use coinext.Prelude.{
  ℕ, zero, suc, ◌+◌, ◌≤◌, ◌≡◌, refl, List, [], ◌∷◌, some, inl, inr, Bool, true, false, Bool-cases,
  Option, Option-cases, leb, length, arith,
}
use coinext.Network.{NetError, RestRequest, FailureKind, status, lost, is_refused, should_retry}
use coinext.Network.Send.{
  NetResult, ok, err, Answer, response, torn, failed, Attempt, Run, RestClient, RestResponse,
  prepare, ended, again, is_success, answered, attempted, send_loop, send, acquire,
}

-- A run that has a result after at most `n` attempts.
pub record Ends (n : ℕ) (r : Run) : Type 0 where
  pub result : NetResult RestResponse
  pub is_result : r.result ≡ some result
  pub few : length r.sent ≤ n

-- The venue answered before it processed the request.
unfoldable pub IsRefused : Answer → Type 0
IsRefused (response s body) = is_refused s ≡ true
IsRefused _ = ⊥

-- Every answer but the last.
unfoldable pub RefusedBefore : List (Attempt × Answer) → Type 0
RefusedBefore [] = Unit
RefusedBefore (x ∷ []) = Unit
RefusedBefore (x ∷ y ∷ ys) = IsRefused x.1 × RefusedBefore (y ∷ ys)

module _ (c : RestClient) (req : RestRequest) (bad : String → Option String) (now_ms : ℕ → ℕ)
    (venue : ℕ → Answer) where
  -- What a turn of the loop does, with the run of the turns after it.
  data Turn (attempt : ℕ) (rest : Run) : Run → Type 0 where
    stopped : (e : NetError) → Turn attempt rest (ended c req bad now_ms venue [] (err e))
    last :
        (x : Attempt × Answer) (r : NetResult RestResponse)
        → Turn attempt rest (ended c req bad now_ms venue (x ∷ []) r)
    repeated :
        (a : Attempt) (s : ℕ) (body : String)
        → should_retry req.idempotent (status s) attempt c.config.max_retries ≡ true
        → Turn attempt rest (again c req bad now_ms venue (a, response s body) attempt rest)
    repeated_lost :
        (a : Attempt) (e : String)
        → should_retry req.idempotent lost attempt c.config.max_retries ≡ true
        → Turn attempt rest (again c req bad now_ms venue (a, failed e) attempt rest)

  answered-Turn :
      (a : Attempt) (attempt : ℕ) (ans : Answer) (rest : Run)
      → Turn attempt rest (answered c req bad now_ms venue a attempt ans rest)
  answered-Turn a attempt (response s body) rest =
      elim (Bool-cases (is_success c req bad now_ms venue s)) [
        | inl e ↦ rw e (last _ _)
        | inr e ↦
            elim (Bool-cases
              (should_retry req.idempotent (status s) attempt c.config.max_retries)) [
                | inl f ↦ rw e (rw f (repeated a s body f))
                | inr f ↦ rw e (rw f (last _ _))
              ]
      ]
  answered-Turn a attempt (torn s e) rest = last _ _
  answered-Turn a attempt (failed e) rest =
      elim (Bool-cases (should_retry req.idempotent lost attempt c.config.max_retries)) [
        | inl f ↦ rw f (repeated_lost a e f)
        | inr f ↦ rw f (last _ _)
      ]

  attempted-Turn :
      (p : NetResult Attempt) (attempt : ℕ) (rest : Run)
      → Turn attempt rest (attempted c req bad now_ms venue p attempt rest)
  attempted-Turn (err e) attempt rest = stopped e
  attempted-Turn (ok a) attempt rest = answered-Turn a attempt (venue attempt) rest

  retry-under :
      (k : FailureKind) (attempt max : ℕ)
      → should_retry req.idempotent k attempt max ≡ true
      → leb max attempt ≡ false
  unfolding should_retry
  retry-under k attempt max e = elim (Bool-cases (leb max attempt)) [
    | inl f ↦ absurd (ground (arith, e, f))
    | inr f ↦ f
  ]

  again-Ends :
      (x : Attempt × Answer) (attempt n : ℕ) (rest : Run)
      → Ends n rest
      → Ends (suc n) (again c req bad now_ms venue x attempt rest)
  again-Ends x attempt n rest h = record {
    result = h.result;
    is_result = h.is_result;
    few = omega (arith, h.few);
  }

  Turn-Ends :
      (attempt n : ℕ) (rest r : Run)
      → (leb c.config.max_retries attempt ≡ false → Ends n rest)
      → Turn attempt rest r
      → Ends (suc n) r
  Turn-Ends attempt n rest _ h (stopped e) = record {
    result = _;
    is_result = refl;
    few = omega arith;
  }
  Turn-Ends attempt n rest _ h (last x r) = record {
    result = _;
    is_result = refl;
    few = omega arith;
  }
  Turn-Ends attempt n rest _ h (repeated a s body e) =
      again-Ends _ attempt n rest (h (retry-under _ attempt _ e))
  Turn-Ends attempt n rest _ h (repeated_lost a m e) =
      again-Ends _ attempt n rest (h (retry-under _ attempt _ e))

  send_loop-Ends :
      (turns attempt : ℕ)
      → turns + attempt ≡ c.config.max_retries
      → Ends (suc turns) (send_loop c req bad now_ms venue (suc turns) attempt)
  unfolding send_loop
  send_loop-Ends zero attempt e =
      Turn-Ends attempt 0 _ _ (λ f. absurd (ground (arith, e, f)))
        (attempted-Turn (prepare c req bad now_ms venue attempt) attempt _)
  send_loop-Ends (suc turns) attempt e =
      Turn-Ends attempt (suc turns) _ _ (λ _. send_loop-Ends turns (attempt + 1) (omega (arith, e)))
        (attempted-Turn (prepare c req bad now_ms venue attempt) attempt _)

  suc_of : (n : ℕ) → n + 1 ≡ suc n
  suc_of n = omega arith

  -- Sending a request always ends with a result, after at most `max_retries` + 1 attempts.
  pub send-Ends :
      (ready : ℕ → Bool) → Ends (suc c.config.max_retries) (send c req bad now_ms venue ready)
  unfolding send
  send-Ends ready = elim (Option-cases (acquire c.capacity ready req.weight)) [
    | inl e ↦
        rw e
          (rw (suc_of c.config.max_retries) (send_loop-Ends c.config.max_retries 0 (omega arith)))
    | inr (m, e) ↦ rw e (record { result = _; is_result = refl; few = omega arith })
  ]

  refused-after :
      (x : Attempt × Answer) (ys : List (Attempt × Answer))
      → IsRefused x.1
      → RefusedBefore ys
      → RefusedBefore (x ∷ ys)
  unfolding RefusedBefore
  refused-after x [] h k = tt
  refused-after x (y ∷ ys) h k = (h, k)

  retry-is_refused :
      (s attempt max : ℕ)
      → req.idempotent ≡ false
      → should_retry req.idempotent (status s) attempt max ≡ true
      → is_refused s ≡ true
  unfolding should_retry
  retry-is_refused s attempt max i e = ground (arith, i, e)

  no_retry_lost :
      (attempt max : ℕ)
      → req.idempotent ≡ false
      → should_retry req.idempotent lost attempt max ≡ true
      → ⊥
  unfolding should_retry
  no_retry_lost attempt max i e = ground (arith, i, e)

  Turn-RefusedBefore :
      (attempt : ℕ) (rest r : Run)
      → req.idempotent ≡ false
      → RefusedBefore rest.sent
      → Turn attempt rest r
      → RefusedBefore r.sent
  unfolding RefusedBefore IsRefused
  Turn-RefusedBefore attempt rest _ i h (stopped e) = tt
  Turn-RefusedBefore attempt rest _ i h (last x r) = tt
  Turn-RefusedBefore attempt rest _ i h (repeated a s body e) =
      refused-after (a, response s body) rest.sent (retry-is_refused s attempt _ i e) h
  Turn-RefusedBefore attempt rest _ i h (repeated_lost a m e) = absurd (no_retry_lost attempt _ i e)

  send_loop-RefusedBefore :
      (turns attempt : ℕ)
      → req.idempotent ≡ false
      → RefusedBefore (Run.sent (send_loop c req bad now_ms venue turns attempt))
  unfolding send_loop RefusedBefore
  send_loop-RefusedBefore zero attempt i = tt
  send_loop-RefusedBefore (suc turns) attempt i =
      Turn-RefusedBefore attempt _ _ i (send_loop-RefusedBefore turns (attempt + 1) i)
        (attempted-Turn (prepare c req bad now_ms venue attempt) attempt _)

  -- A request that is not idempotent is sent again only after the answer 429 or 418: every answer but the last
  -- is one of these.
  pub send-RefusedBefore :
      (ready : ℕ → Bool)
      → req.idempotent ≡ false
      → RefusedBefore (Run.sent (send c req bad now_ms venue ready))
  unfolding send RefusedBefore
  send-RefusedBefore ready i = elim (Option-cases (acquire c.capacity ready req.weight)) [
    | inl e ↦ rw e (send_loop-RefusedBefore (c.config.max_retries + 1) 0 i)
    | inr (m, e) ↦ rw e tt
  ]
