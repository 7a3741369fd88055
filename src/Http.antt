-- ===== src/Http.antt =====
-- src/swimzh/core/http.py: the client that turns every failure into a value. httpx's client and the
-- sleep are parameters, with a state of their own; what they raise is `Raised`.
pub mod Retry
pub mod Classified
use swimming_in_zurich.Base.{
  ℕ, zero, suc, ◌-◌, Bool, true, false, ◌&&◌, leb, ltb, ◌==◌, if◌then◌else◌, Option, none, some,
  List, [], ◌∷◌, ◌++◌, String, str_eq, length,
}
use swimming_in_zurich.Errors.{
  Float, JsonValue, Result, ok, err, ProviderError, timeout, connection_failed, http_status,
  rate_limited, decode_error, too_large, redirect, retriable,
}
use swimming_in_zurich.Cache.{Headers, Bytes, Response}
use swimming_in_zurich.Cache.Tiers.{cache_extensions}

-- The exceptions of `client.get`: those with a handler, in the order of the handlers, and the others,
-- such as httpx.InvalidURL.
pub data Raised : Type 0 where
  too_many_redirects : (location : String) → Raised
  timed_out : Raised
  decoding_error : (detail : String) → Raised
  transport_error : (detail : String) → Raised
  request_error : (detail : String) → Raised
  unhandled : (detail : String) → Raised

pub data Fetched : Type 0 where
  response : Response → Fetched
  raised : Raised → Fetched

-- Why `get` gives no response: it returns an error, or an exception that no handler catches leaves it.
pub data Failure : Type 0 where
  returned : ProviderError → Failure
  escaped : (detail : String) → Failure

-- What the interpreter and httpx do with strings, bytes and floats.
pub record Readers : Type 0 where
  pub header : Headers → String → Option String
  pub decode_replace : Bytes → String
  pub parse_float : String → Option Float
  pub scale : Float → ℕ → Float

pub record RetryPolicy : Type 0 where
  pub max_attempts : ℕ
  pub backoff_base_s : Float

-- `RetryPolicy(...)`; `none` is a ValueError.
unfoldable pub retry_policy : ℕ → Float → Option RetryPolicy
retry_policy max_attempts backoff =
    if ltb max_attempts 1
    then none
    else some (record { max_attempts = max_attempts; backoff_base_s = backoff })

pub record HttpClient : Type 0 where
  pub source : String
  pub timeout_s : Float
  pub max_bytes : ℕ
  pub retry : RetryPolicy

abbrev first_bytes : ℕ → Bytes → Bytes
first_bytes zero bytes = []
first_bytes (suc n) [] = []
first_bytes (suc n) (b ∷ bytes) = b ∷ first_bytes n bytes

-- `_snippet`
unfoldable pub snippet : Readers → Response → String
snippet readers resp = readers.decode_replace (first_bytes 200 resp.content)

abbrev parsed_after : Readers → Option String → Option Float
parsed_after readers none = none
parsed_after readers (some raw) = readers.parse_float raw

-- `_parse_retry_after`
unfoldable pub parse_retry_after : Readers → Response → Option Float
parse_retry_after readers resp = parsed_after readers (readers.header resp.headers "retry-after")

-- `_classify`
unfoldable pub classify_response :
    Readers → HttpClient → String → Response → Result Response ProviderError
unfolding snippet parse_retry_after
classify_response readers client url resp =
    let status = resp.status_code in
    if ltb client.max_bytes (length resp.content)
    then err (too_large url client.max_bytes)
    else if leb 200 status && ltb status 300
    then ok resp
    else if status == 429
    then err (rate_limited url (parse_retry_after readers resp))
    else err (http_status url status (snippet readers resp))

-- The `except` clauses of `_get_once`.
unfoldable pub error_of : HttpClient → String → Raised → Failure
error_of client url (too_many_redirects location) =
    returned (redirect url location (record { negative = true; digits = 1 }))
error_of client url timed_out = returned (timeout url client.timeout_s)
error_of client url (decoding_error detail) = returned (decode_error client.source detail)
error_of client url (transport_error detail) = returned (connection_failed url detail)
error_of client url (request_error detail) = returned (connection_failed url detail)
error_of client url (unhandled detail) = escaped detail

abbrev pub as_returned : Result Response ProviderError → Result Response Failure
as_returned (ok resp) = ok resp
as_returned (err error) = err (returned error)

unfoldable pub outcome_of : Readers → HttpClient → String → Fetched → Result Response Failure
unfolding classify_response error_of
outcome_of readers client url (response resp) =
    as_returned (classify_response readers client url resp)
outcome_of readers client url (raised exc) = err (error_of client url exc)

-- The `extensions` that a caller passes: none, a mapping, or an object that is no mapping.
pub data CallerExtensions : Type 0 where
  absent : CallerExtensions
  mapping : List (String × JsonValue) → CallerExtensions
  not_mapping : CallerExtensions

-- `d.update(other)` by keys.
unfoldable pub set_key : String → JsonValue → List (String × JsonValue) → List (String × JsonValue)
set_key key value [] = (key, value) ∷ []
set_key key value ((k, v) ∷ rest) =
    if str_eq key k then (k, value) ∷ rest else (k, v) ∷ set_key key value rest

unfoldable pub update :
    List (String × JsonValue) → List (String × JsonValue) → List (String × JsonValue)
unfolding set_key
update d [] = d
update d ((key, value) ∷ rest) = update (set_key key value d) rest

-- `_stamp_cache_policy`
unfoldable pub stamp_cache_policy : String → CallerExtensions → CallerExtensions
unfolding cache_extensions update
stamp_cache_policy source not_mapping = not_mapping
stamp_cache_policy source absent = mapping (cache_extensions source)
stamp_cache_policy source (mapping caller) = mapping (update (cache_extensions source) caller)

-- Whether the loop may go on after the failure; an exception that escapes ends it.
unfoldable pub is_retriable : Failure → Bool
unfolding retriable
is_retriable (returned error) = retriable error
is_retriable (escaped _) = false

module _ {W : Type 0} (client_get : String → CallerExtensions → W → Fetched × W)
    (sleep : Float → W → W) (readers : Readers) (client : HttpClient) where
  -- `_get_once`
  unfoldable pub get_once : String → CallerExtensions → W → Result Response Failure × W
  unfolding outcome_of
  get_once url extensions world =
      let (fetched, next) = client_get url extensions world in
      (outcome_of readers client url fetched, next)

  -- `self._sleep(backoff_base_s * 2 ** (attempt - 1))`
  abbrev pub backoff : ℕ → W → W
  backoff attempt world = sleep (readers.scale client.retry.backoff_base_s (attempt - 1)) world

  -- What follows an attempt: the next one, or the result as it is.
  abbrev pub retried :
      Result Response Failure × W → Result Response Failure × W → Result Response Failure × W
  retried (ok resp, world) again = (ok resp, world)
  retried (err error, world) again = if is_retriable error then again else (err error, world)

  -- The loop from an attempt on, with the number of attempts that are left after it: `attempt <
  -- max_attempts` while it is not 0.
  unfoldable pub attempts : ℕ → ℕ → String → CallerExtensions → W → Result Response Failure × W
  unfolding get_once is_retriable
  attempts zero attempt url extensions world = get_once url extensions world
  attempts (suc left) attempt url extensions world =
      let (result, next) = get_once url extensions world in
      retried (result, next) (attempts left (suc attempt) url extensions (backoff attempt next))

  abbrev from_first : ℕ → String → CallerExtensions → W → Option (Result Response Failure × W)
  from_first zero url extensions world = none
  from_first (suc left) url extensions world = some (attempts left 1 url extensions world)

  -- `get`; `none` is the RuntimeError of a loop that does not run.
  unfoldable pub http_get : String → CallerExtensions → W → Option (Result Response Failure × W)
  unfolding attempts stamp_cache_policy
  http_get url extensions world =
      from_first client.retry.max_attempts url (stamp_cache_policy client.source extensions) world
