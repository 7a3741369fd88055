-- ===== src/Etl/Roster.antt =====
-- src/swimzh/etl/catalog.py: `build_catalog`. A dict of counts is the list of its items.
pub mod Numbering
use swimming_in_zurich.Base.{
  ℕ, zero, suc, ◌+◌, Option, none, some, List, [], ◌∷◌, String, str_append,
}
use swimming_in_zurich.Text.{decimal}
use swimming_in_zurich.Closure.{lookup}
use swimming_in_zurich.Registry.{put}
use swimming_in_zurich.Models.{GeoPoint, PoolKind}
use swimming_in_zurich.Catalog.{PoolCatalogEntry}
use swimming_in_zurich.Catalog.Slug.{slug}

-- providers/geo_sport.py
pub record GeoPool : Type 0 where
  pub source_id : String
  pub poi_id : Option String
  pub name : String
  pub kind : PoolKind
  pub address : String
  pub geo : GeoPoint
  pub url : Option String
  pub category : Option String
  pub description : Option String
  pub phone : Option String

-- `seen.get(base, 0)`
abbrev pub count_of : Option ℕ → ℕ
count_of none = 0
count_of (some n) = n

-- `base if count == 0 else f"{base}-{count + 1}"`
unfoldable pub suffixed : String → ℕ → String
unfolding decimal
suffixed base zero = base
suffixed base (suc n) = str_append base (str_append "-" (decimal (suc (suc n))))

abbrev pub entry_of : GeoPool → String → PoolCatalogEntry
entry_of pool pool_id = record {
  pool_id = pool_id;
  name = pool.name;
  kind = pool.kind;
  address = pool.address;
  geo = some pool.geo;
  url = pool.url;
  description = pool.description;
  phone = pool.phone;
  poi_id = pool.poi_id;
}

-- The loop over the pools.
unfoldable pub entries_from :
    (String → String) → List GeoPool → List (String × ℕ) → List PoolCatalogEntry
unfolding lookup put suffixed
entries_from slug_of [] seen = []
entries_from slug_of (pool ∷ pools) seen =
    let base = slug_of pool.name in
    let count = count_of (lookup base seen) in
    entry_of pool (suffixed base count) ∷ entries_from slug_of pools (put base (count + 1) seen)

unfoldable pub build_catalog : (String → String) → List GeoPool → List PoolCatalogEntry
unfolding entries_from slug
build_catalog lower geo_pools = entries_from (slug lower) geo_pools []
