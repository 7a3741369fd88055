-- ===== src/Cache/Tiers.antt =====
-- src/swimzh/core/cache_tiers.py: the cache policy of each source.
use swimming_in_zurich.Base.{ℕ, false, ◌*◌, Option, none, some, List, [], ◌∷◌, String}
use swimming_in_zurich.Errors.{JsonValue, str, int}
use swimming_in_zurich.Closure.{lookup}

pub record CachePolicy : Type 0 where
  pub tier : String
  pub ttl_s : ℕ
  pub max_stale_s : ℕ

abbrev pub day_s : ℕ
day_s = 24 * 3600

abbrev pub default_policy : CachePolicy
default_policy = record { tier = "default"; ttl_s = 3600; max_stale_s = 0 }

abbrev pub cache_policies : List (String × CachePolicy)
cache_policies =
    ("geo_sport", record { tier = "static"; ttl_s = 14 * day_s; max_stale_s = 90 * day_s })
    ∷ ("page_provider", record { tier = "static"; ttl_s = 7 * day_s; max_stale_s = 30 * day_s })
    ∷ ("price_scraper", record { tier = "static"; ttl_s = 7 * day_s; max_stale_s = 30 * day_s })
    ∷ ("belegungsplan", record { tier = "snapshot"; ttl_s = 3 * day_s; max_stale_s = 21 * day_s })
    ∷ (
      "schedule_scraper",
      record { tier = "snapshot"; ttl_s = 12 * 3600; max_stale_s = 14 * day_s },
    )
    ∷ ("baditicker", record { tier = "live"; ttl_s = 2 * 60; max_stale_s = 0 })
    ∷ []

abbrev pub or_default : Option CachePolicy → CachePolicy
or_default none = default_policy
or_default (some policy) = policy

unfoldable pub policy_for : String → CachePolicy
unfolding lookup
policy_for source = or_default (lookup source cache_policies)

unfoldable pub cache_extensions : String → List (String × JsonValue)
unfolding policy_for
cache_extensions source =
    let policy = policy_for source in
    ("cache_tier", str policy.tier) ∷ ("cache_ttl_s", int false policy.ttl_s) ∷ []
