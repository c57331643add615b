-- ===== src/Network.antt =====
-- market-data/crates/coinext-network/src: error.rs, the requests and the retry rule of rest.rs, and the
-- queries of sign.rs. The HMAC of a text is a parameter.
pub mod Send
use Prim.Native.String.{String, ◌++◌}
use Prim.Native.Char.{code}
use coinext.Prelude.{
  ℕ, zero, suc, ◌+◌, ◌/◌, ◌%◌, Bool, true, false, ◌&&◌, ◌||◌, Option, none, some, List, [], ◌∷◌,
  ltb, leb, nat_beq, if◌then◌else◌,
}
use coinext.Prelude.Text.{digit}

pub data NetError : Type 0 where
  not_connected : NetError
  transport auth decode : String → NetError
  http : ℕ → String → NetError
  rate_limited timeout : ℕ → NetError

pub data HttpMethod : Type 0 where
  get post put delete : HttpMethod

pub record RestConfig : Type 0 where
  pub base_url : String
  pub max_retries : ℕ
  pub base_backoff_ms : ℕ
  pub timeout_ms : ℕ
  pub recv_window_ms : ℕ

unfoldable pub default_config : RestConfig
default_config = record {
  base_url = "";
  max_retries = 3;
  base_backoff_ms = 100;
  timeout_ms = 5000;
  recv_window_ms = 5000;
}

pub record RestRequest : Type 0 where
  pub method : HttpMethod
  pub path : String
  pub query : List (String × String)
  pub body : Option String
  pub signed : Bool
  pub api_key : Bool
  pub idempotent : Bool
  pub weight : ℕ

-- `RestRequest::get`
unfoldable pub get_request : String → ℕ → RestRequest
get_request path weight = record {
  method = HttpMethod.get;
  path = path;
  query = [];
  body = none;
  signed = false;
  api_key = false;
  idempotent = true;
  weight = weight;
}

abbrev pub is_get : HttpMethod → Bool
is_get HttpMethod.get = true
is_get _ = false

-- `RestRequest::signed`
unfoldable pub signed_request : HttpMethod → String → ℕ → RestRequest
unfolding get_request
signed_request method path weight = record (get_request path weight) {
  method = method;
  signed = true;
  idempotent = is_get method;
}

-- `RestRequest::api_key`
unfoldable pub api_key_request : HttpMethod → String → ℕ → RestRequest
unfolding get_request
api_key_request method path weight = record (get_request path weight) {
  method = method;
  api_key = true;
  idempotent = is_get method;
}

abbrev append {ℓ} : {A : Type ℓ} → List A → A → List A
append [] a = a ∷ []
append (b ∷ bs) a = b ∷ append bs a

unfoldable pub with_param : String → String → RestRequest → RestRequest
with_param key value req = record req { query = append req.query (key, value) }

unfoldable pub with_idempotent : Bool → RestRequest → RestRequest
with_idempotent idempotent req = record req { idempotent = idempotent }

pub data FailureKind : Type 0 where
  status : ℕ → FailureKind
  lost : FailureKind

-- 429 and 418 are answered before the request is processed.
abbrev pub is_refused : ℕ → Bool
is_refused s = nat_beq s 429 || nat_beq s 418

abbrev pub retries : Bool → FailureKind → Bool
retries idempotent (status s) = is_refused s || (leb 500 s && (ltb s 600 && idempotent))
retries idempotent lost = idempotent

unfoldable pub should_retry : Bool → FailureKind → ℕ → ℕ → Bool
should_retry idempotent outcome attempt max =
    if leb max attempt then false else retries idempotent outcome

-- The bytes of a character in UTF-8.
abbrev utf8 : ℕ → List ℕ
utf8 c =
    if ltb c 128
    then c ∷ []
    else if ltb c 2048
    then (192 + c / 64) ∷ (128 + c % 64) ∷ []
    else if ltb c 65536
    then (224 + c / 4096) ∷ (128 + c / 64 % 64) ∷ (128 + c % 64) ∷ []
    else (240 + c / 262144) ∷ (128 + c / 4096 % 64) ∷ (128 + c / 64 % 64) ∷ (128 + c % 64) ∷ []

abbrev between : ℕ → ℕ → ℕ → Bool
between a b n = leb a n && leb n b

-- Letters, digits, `-`, `_`, `.` and `~`.
abbrev pub is_unreserved : ℕ → Bool
is_unreserved b =
    between 65 90 b
    || (between 97 122 b
        || (between 48 57 b || (nat_beq b 45 || (nat_beq b 95 || (nat_beq b 46 || nat_beq b 126)))))

-- An upper-case hexadecimal digit.
abbrev hex_digit : ℕ → String
hex_digit n =
    if ltb n 10
    then digit n
    else if nat_beq n 10
    then "A"
    else if nat_beq n 11
    then "B"
    else if nat_beq n 12
    then "C"
    else if nat_beq n 13
    then "D"
    else if nat_beq n 14
    then "E"
    else "F"

unfoldable pub escaped : List ℕ → String
escaped [] = ""
escaped (b ∷ bs) = "%" ++ (hex_digit (b / 16) ++ (hex_digit (b % 16) ++ escaped bs))

-- An unreserved character is a single byte.
unfoldable pub encode_value : String → String
unfolding escaped
encode_value String.[] = ""
encode_value (String.◌∷◌ c s) =
    if is_unreserved (code c)
    then String.◌∷◌ c (encode_value s)
    else escaped (utf8 (code c)) ++ encode_value s

unfoldable pub build_query : List (String × String) → String
unfolding encode_value
build_query [] = ""
build_query ((k, v) ∷ []) = k ++ ("=" ++ encode_value v)
build_query ((k, v) ∷ p ∷ ps) = k ++ ("=" ++ (encode_value v ++ ("&" ++ build_query (p ∷ ps))))

abbrev pub is_empty : String → Bool
is_empty String.[] = true
is_empty _ = false

unfoldable pub signed_query : (String → String) → List (String × String) → String
unfolding build_query
signed_query hmac params =
    let base = build_query params in
    let sig = "signature=" ++ hmac base in if is_empty base then sig else base ++ ("&" ++ sig)

-- `to_string` of a u64.
unfoldable pub decimal : ℕ → ℕ → String
decimal zero n = ""
decimal (suc w) n =
    let high = decimal w (n / 10) in if ltb n 10 then digit n else high ++ digit (n % 10)
