-- ===== src/Lake/Refresh.antt =====
-- src/swimzh/etl/refresh.py: what one run does with one silver source. The line on stderr is left out.
use swimming_in_zurich.Base.{
  ℕ, ◌+◌, ◌*◌, Bool, true, false, not, ◌&&◌, ◌||◌, leb, ltb, if◌then◌else◌, Option, none, some,
  List, [], ◌∷◌, String,
}
use swimming_in_zurich.Base.Maybe.{◌>>=◌}
use swimming_in_zurich.Errors.{
  JsonValue, JsonFields, Result, ok, err, ProviderError, http_status, retriable,
}
use swimming_in_zurich.Closure.{lookup}
use swimming_in_zurich.Cache.Tiers.{CachePolicy, policy_for}
use swimming_in_zurich.Lake.{
  SilverStatus, fresh, stale, SilverHeader, SilverDoc, LakeFiles, read, store, fresh_doc,
  mark_stale,
}

abbrev pub policy_source : List (String × String)
policy_source =
    ("roster", "geo_sport")
    ∷ ("prices", "price_scraper")
    ∷ ("schedules", "schedule_scraper")
    ∷ ("lane_plans", "belegungsplan")
    ∷ []

-- `silver_policy`; `none` is a KeyError.
unfoldable pub silver_policy : String → Option CachePolicy
unfolding lookup policy_for
silver_policy source = do provider ← lookup source policy_source; some (policy_for provider)

abbrev is_server_error : ProviderError → Bool
is_server_error (http_status _ status _) = leb 500 status
is_server_error _ = false

unfoldable pub transient : ProviderError → Bool
unfolding retriable
transient error = retriable error || is_server_error error

pub record Refreshed (T : Type 0) : Type 0 where
  pub value : T
  pub header : SilverHeader
  pub fetched : Bool

pub data RefreshReason : Type 0 where
  not_transient first_run too_stale : RefreshReason

-- The age is that of `now` over the given instant.
pub record RefreshFailure : Type 0 where
  pub source : String
  pub reason : RefreshReason
  pub cause : ProviderError
  pub fetched_at : Option ℕ

unfoldable pub is_stale : SilverStatus → Bool
is_stale fresh = false
is_stale stale = true

-- `now - fetched_at < timedelta(seconds=s)`
abbrev pub is_within_s : ℕ → ℕ → ℕ → Bool
is_within_s s now fetched_at = ltb now (fetched_at + s * 1000000)

-- `now - fetched_at > timedelta(seconds=s)`
abbrev pub is_older_s : ℕ → ℕ → ℕ → Bool
is_older_s s now fetched_at = ltb (fetched_at + s * 1000000) now

-- A document that is not due: it is reused.
abbrev pub reusable : CachePolicy → Bool → ℕ → Option SilverDoc → Option SilverDoc
reusable rule force now none = none
reusable rule force now (some doc) =
    if not force
      && (not (is_stale doc.header.status) && is_within_s rule.ttl_s now doc.header.fetched_at)
    then some doc
    else none

module _ {T W : Type 0} (fetch : W → Result T ProviderError × W) (encode : T → JsonFields)
    (decode : JsonFields → Option T) (sha : JsonValue → String) where
  -- What a run leaves.
  pub record Left : Type 0 where
    pub outcome : Result (Refreshed T) RefreshFailure
    pub lake : LakeFiles
    pub world : W

  abbrev pub failed : String → RefreshReason → ProviderError → Option ℕ → LakeFiles → W → Left
  failed source reason cause fetched_at lake world = record {
    outcome =
        err (record { source = source; reason = reason; cause = cause; fetched_at = fetched_at });
    lake = lake;
    world = world;
  }

  abbrev pub kept : SilverDoc → LakeFiles → W → Option Left
  kept doc lake world = do
    value ← decode doc.payload
    some (record {
      outcome = ok (record { value = value; header = doc.header; fetched = false });
      lake = lake;
      world = world;
    })

  -- The keep of a stale document, or the abort.
  abbrev pub after_error :
      CachePolicy → String → ℕ → Option SilverDoc → ProviderError → LakeFiles → W → Option Left
  after_error rule source now none error lake world =
      if transient error
      then some (failed source first_run error none lake world)
      else some (failed source not_transient error none lake world)
  after_error rule source now (some previous) error lake world =
      let keep = (do (doc, marked) ← mark_stale source lake; kept doc marked world) in
      if transient error
      then if is_older_s rule.max_stale_s now previous.header.fetched_at
        then some (failed source too_stale error (some previous.header.fetched_at) lake world)
        else keep
      else some (failed source not_transient error none lake world)

  abbrev pub after_fetch :
      CachePolicy
      → String
      → ℕ
      → Option SilverDoc
      → LakeFiles
      → Result T ProviderError × W
      → Option Left
  after_fetch rule source now previous lake (ok value, world) =
      let doc = fresh_doc sha source (encode value) now in
      some (record {
        outcome = ok (record { value = value; header = doc.header; fetched = true });
        lake = store doc lake;
        world = world;
      })
  after_fetch rule source now previous lake (err error, world) =
      after_error rule source now previous error lake world

  abbrev pub after_read :
      CachePolicy → String → ℕ → Option SilverDoc → LakeFiles → W → Option SilverDoc → Option Left
  after_read rule source now previous lake world (some doc) = kept doc lake world
  after_read rule source now previous lake world none =
      after_fetch rule source now previous lake (fetch world)

  -- `refresh_source` under a policy.
  unfoldable pub refresh_under : CachePolicy → String → ℕ → Bool → LakeFiles → W → Option Left
  unfolding read mark_stale store fresh_doc transient is_stale
  refresh_under rule source now force lake world = do
    previous ← read source lake
    after_read rule source now previous lake world (reusable rule force now previous)

  abbrev pub rule_of : Option CachePolicy → String → Option CachePolicy
  rule_of none source = silver_policy source
  rule_of (some policy) source = some policy

  -- `refresh_source`
  unfoldable pub refresh_source :
      Option CachePolicy → String → ℕ → Bool → LakeFiles → W → Option Left
  unfolding refresh_under silver_policy
  refresh_source policy source now force lake world = do
    rule ← rule_of policy source
    refresh_under rule source now force lake world
