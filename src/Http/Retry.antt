-- ===== src/Http/Retry.antt =====
-- The attempts of a client (src/swimzh/core/http.py).
use swimming_in_zurich.Base.{
  ℕ, zero, suc, ◌≤◌, true, false, some, String, ◌≡◌, refl, ap, subst, ◌⊎◌, inl, inr, arith,
  Bool-cases,
}
use swimming_in_zurich.Errors.{Float, Result, ok, err, ProviderError}
use swimming_in_zurich.Errors.Chain.{Holds}
use swimming_in_zurich.Cache.{Response}
use swimming_in_zurich.Http.{
  Failure, as_returned, is_retriable, classify_response, Fetched, response, raised, Readers,
  HttpClient, CallerExtensions, outcome_of, stamp_cache_policy, get_once, backoff, retried,
  attempts, http_get,
}
use swimming_in_zurich.Http.Classified.{IsAcceptable, classify_response-IsAcceptable}

-- No further attempt can help: there is a response, or the failure is not one to try again.
abbrev pub IsFinal : Result Response Failure → Type 0
IsFinal (ok _) = Unit
IsFinal (err error) = is_retriable error ≡ false

module _ {W : Type 0} (client_get : String → CallerExtensions → W → Fetched × W)
    (sleep : Float → W → W) (readers : Readers) (client : HttpClient) (url : String)
    (extensions : CallerExtensions) where
  -- A run of attempts from a world to the last result and the world after it; the number counts them.
  pub data Runs : ℕ → ℕ → W → Result Response Failure → W → Type 0 where
    last :
        {attempt : ℕ} {world : W}
        → Runs attempt 1 world
            (get_once client_get sleep readers client url extensions world).0
            (get_once client_get sleep readers client url extensions world).1
    again :
        {attempt n : ℕ} {world end : W} {error : Failure} {result : Result Response Failure}
        → (get_once client_get sleep readers client url extensions world).0 ≡ err error
        → is_retriable error ≡ true
        → Runs
            (suc attempt)
            n
            (backoff client_get sleep readers client attempt
              (get_once client_get sleep readers client url extensions world).1)
            result
            end
        → Runs attempt (suc n) world result end

  -- The attempts that are left are enough for the run, and it stops early only at a final result.
  pub record Run (left attempt : ℕ) (world : W) (r : Result Response Failure × W) : Type 0 where
    pub count : ℕ
    pub runs : Runs attempt count world r.0 r.1
    pub is_bounded : count ≤ suc left
    pub is_final : IsFinal r.0 ⊎ (count ≡ suc left)

  Run-again :
      (left attempt : ℕ) (world : W) (error : Failure) (rest : Result Response Failure × W)
      → (get_once client_get sleep readers client url extensions world).0 ≡ err error
      → is_retriable error ≡ true
      → Run left
          (suc attempt)
          (backoff client_get sleep readers client attempt
            (get_once client_get sleep readers client url extensions world).1)
          rest
      → Run (suc left) attempt world rest
  Run-again left attempt world error rest e h run = record {
    count = suc run.count;
    runs = again e h run.runs;
    is_bounded = omega (arith, run.is_bounded);
    is_final = elim run.is_final [ inl f ↦ inl f | inr same ↦ inr (ap suc same) ];
  }

  Run-last :
      (left attempt : ℕ) (world : W) (result : Result Response Failure)
      → (get_once client_get sleep readers client url extensions world).0 ≡ result
      → IsFinal result
      → Run left attempt world
          (result, (get_once client_get sleep readers client url extensions world).1)
  Run-last left attempt world result e =
      subst
        (λ x.
          IsFinal x
          → Run left attempt world
              (x, (get_once client_get sleep readers client url extensions world).1))
        e
        (λ final. record { count = 1; runs = last; is_bounded = omega arith; is_final = inl final })

  retried-Run :
      (left attempt : ℕ) (world : W) (result : Result Response Failure)
      (rest : Result Response Failure × W)
      → (get_once client_get sleep readers client url extensions world).0 ≡ result
      → Run left
          (suc attempt)
          (backoff client_get sleep readers client attempt
            (get_once client_get sleep readers client url extensions world).1)
          rest
      → Run (suc left) attempt world (
          retried client_get sleep readers client
            (result, (get_once client_get sleep readers client url extensions world).1)
            rest)
  retried-Run left attempt world (ok resp) rest e run =
      Run-last (suc left) attempt world (ok resp) e tt
  retried-Run left attempt world (err error) rest e run = elim (Bool-cases (is_retriable error)) [
    | inl h ↦ rw h (Run-again left attempt world error rest e h run)
    | inr h ↦ rw h (Run-last (suc left) attempt world (err error) e h)
  ]

  attempts-Run :
      (left attempt : ℕ) (world : W)
      → Run left attempt world
          (attempts client_get sleep readers client left attempt url extensions world)
  unfolding attempts
  attempts-Run zero attempt world = record {
    count = 1;
    runs = last;
    is_bounded = omega arith;
    is_final = inr refl;
  }
  attempts-Run (suc left) attempt world = retried-Run left attempt world _ _ refl (
      attempts-Run left (suc attempt) (
        backoff client_get sleep readers client attempt
          (get_once client_get sleep readers client url extensions world).1))

  as_returned-IsAcceptable :
      (result : Result Response ProviderError)
      → Holds (IsAcceptable client) result
      → Holds (IsAcceptable client) (as_returned result)
  as_returned-IsAcceptable (ok resp) h = h
  as_returned-IsAcceptable (err error) h = tt

  outcome_of-IsAcceptable :
      (f : Fetched) → Holds (IsAcceptable client) (outcome_of readers client url f)
  unfolding outcome_of
  outcome_of-IsAcceptable (response resp) =
      as_returned-IsAcceptable (classify_response readers client url resp)
        (classify_response-IsAcceptable readers client url resp)
  outcome_of-IsAcceptable (raised exc) = tt

  Runs-IsAcceptable :
      (attempt count : ℕ) (world end : W) (result : Result Response Failure)
      → Runs attempt count world result end
      → Holds (IsAcceptable client) result
  unfolding get_once
  Runs-IsAcceptable attempt count world end result last =
      outcome_of-IsAcceptable (client_get url extensions world).0
  Runs-IsAcceptable attempt count world end result (again e h rest) =
      Runs-IsAcceptable (suc attempt) _ _ end result rest

-- With at least one attempt allowed, `get` ends. Its result is that of the last attempt of a run in
-- which each earlier attempt failed with an error that can be retried and was followed by a sleep;
-- the run is no longer than the attempts allowed, and shorter only if its result is a response, an
-- error that cannot be retried or an exception that no handler catches. A response is of the 2xx
-- class and its body within the limit.
pub http_get-Run :
    {W : Type 0} (client_get : String → CallerExtensions → W → Fetched × W) (sleep : Float → W → W)
    (readers : Readers) (client : HttpClient) (url : String) (extensions : CallerExtensions)
    (world : W) (left : ℕ)
    → client.retry.max_attempts ≡ suc left
    → (r : Result Response Failure × W) × (http_get client_get sleep readers client url extensions
          world
        ≡ some r)
      × Run client_get sleep readers client url
          (stamp_cache_policy client.source extensions)
          left
          1
          world
          r
      × Holds (IsAcceptable client) r.0
unfolding http_get
http_get-Run client_get sleep readers client url extensions world left h =
    let run =
      attempts-Run client_get sleep readers client url (stamp_cache_policy client.source extensions)
        left 1 world in
    (
      _,
      rw h refl,
      run,
      Runs-IsAcceptable client_get sleep readers client url
          (stamp_cache_policy client.source extensions) 1 run.count world _ _ run.runs,
    )
