-- ===== src/Tests/Refreshed.antt =====
-- The theorems of Lake and Etl at concrete sources.
use swimming_in_zurich.Base.{
  true, ℕ, zero, suc, ◌*◌, false, Option, none, some, List, [], ◌∷◌, String, map, ◌≡◌, refl,
}
use swimming_in_zurich.Errors.{
  JsonValue, JsonFields, end, Result, ok, err, ProviderError, timeout, parse_error,
}
use swimming_in_zurich.Models.{PoolKind}
use swimming_in_zurich.Catalog.{PoolCatalogEntry}
use swimming_in_zurich.Catalog.Slug.Shape.{is_slug, letters, slug-is_slug}
use swimming_in_zurich.Text.{strip}
use swimming_in_zurich.Catalog.Slug.{translate, slug}
use swimming_in_zurich.Cache.Tiers.{CachePolicy, day_s}
use swimming_in_zurich.Silver.{ParsedPlan}
use swimming_in_zurich.Lake.{SilverDoc, document, LakeFiles, fresh_doc, stale_doc, store}
use swimming_in_zurich.Lake.Refresh.{Left, refresh_under}
use swimming_in_zurich.Lake.Policy.{Obeys, refresh_under-Obeys}
use swimming_in_zurich.Base.Distinct.{Distinct}
use swimming_in_zurich.Etl.Sheets.{DiscoveredLink}
use swimming_in_zurich.Etl.Roster.{GeoPool, build_catalog}
use swimming_in_zurich.Etl.Roster.Numbering.{numbered, build_catalog-numbered}
use swimming_in_zurich.Tests.Data.{plan, same_case}

abbrev rule : CachePolicy
rule = record { tier = "static"; ttl_s = 7 * day_s; max_stale_s = 30 * day_s }

-- The source does not answer.
abbrev silent : ℕ → Result ℕ ProviderError × ℕ
silent world = (err (timeout "https://example.org" 0), world)

abbrev encode : ℕ → JsonFields
encode _ = end

abbrev decode : JsonFields → Option ℕ
decode _ = some 7

abbrev sha : JsonValue → String
sha _ = "0"

-- Ten days, in microseconds.
abbrev ten_days : ℕ
ten_days = 10 * day_s * 1000000

abbrev last_week : SilverDoc
last_week = fresh_doc sha "prices" end 0

abbrev lake : LakeFiles
lake = ("prices", document last_week) ∷ []

abbrev left : Left silent encode decode sha
left = record {
  outcome = ok (record { value = 7; header = (stale_doc last_week).header; fetched = false });
  lake = store (stale_doc last_week) lake;
  world = 0;
}

run : refresh_under silent encode decode sha rule "prices" ten_days false lake 0 ≡ some left
unfolding refresh_under fresh_doc
run = refl

refresh_under-Obeys_example :
    Obeys silent encode decode sha rule "prices" ten_days false lake 0 left
refresh_under-Obeys_example =
    refresh_under-Obeys silent encode decode sha rule "prices" ten_days false lake 0 left run

abbrev link : String → DiscoveredLink
link url = record { pool_id = "hallenbad-city"; url = url }

abbrev links : List DiscoveredLink
links = link "a.pdf" ∷ link "b.pdf" ∷ link "a.pdf" ∷ []

-- The first sheet is parsed, the second is not a plan.
abbrev scrape : String → ℕ → Result (List ParsedPlan) ProviderError × ℕ
scrape _ zero = (ok (record { basin_hint = ""; plan = plan; source_url = "" } ∷ []), 1)
scrape url (suc n) = (err (parse_error "belegungsplan" "no grid" ""), n)

abbrev pool : String → GeoPool
pool name = record {
  source_id = "poi_view.1";
  poi_id = none;
  name = name;
  kind = PoolKind.outdoor;
  address = "";
  geo = record { lat = 0; lon = 0 };
  url = none;
  category = none;
  description = none;
  phone = none;
}

abbrev pools : List GeoPool
pools = pool "bad" ∷ pool "bad" ∷ pool "bad 2" ∷ []

slug-is_slug_example :
    (is_slug (slug same_case "Bad -- 2!") ≡ true)
    × (letters (slug same_case "Bad -- 2!") ≡ letters (translate (same_case (strip "Bad -- 2!"))))
slug-is_slug_example = slug-is_slug same_case "Bad -- 2!"

build_catalog-numbered_example :
    map (λ (e : PoolCatalogEntry). e.pool_id) (build_catalog same_case pools)
    ≡ numbered (slug same_case) [] pools
build_catalog-numbered_example = build_catalog-numbered same_case pools

-- A pool whose own slug ends in a number may get the id of another one.
shared_id :
    map (λ (e : PoolCatalogEntry). e.pool_id) (build_catalog same_case pools)
    ≡ "bad" ∷ "bad-2" ∷ "bad-2" ∷ []
unfolding build_catalog
shared_id = refl
