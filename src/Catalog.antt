-- ===== src/Catalog.antt =====
-- src/swimzh/domain/catalog.py: roster entries and the freshness of a schedule.
pub mod Slug
use swimming_in_zurich.Base.{Bool, true, false, if◌then◌else◌, Option, String, any, nonempty}
use swimming_in_zurich.Models.{Basin, Facility, GeoPoint, PoolKind, indoor, thermal}

pub record PoolCatalogEntry : Type 0 where
  pub pool_id : String
  pub name : String
  pub kind : PoolKind
  pub address : String
  pub geo : Option GeoPoint
  pub url : Option String
  pub description : Option String
  pub phone : Option String
  pub poi_id : Option String

pub data ScheduleFreshness : Type 0 where
  scraped awaiting_scrape no_source : ScheduleFreshness

pub record RosterEntry : Type 0 where
  pub entry : PoolCatalogEntry
  pub freshness : ScheduleFreshness

abbrev pub has_rules : Basin → Bool
has_rules b = nonempty b.rules

-- `kind in (INDOOR, THERMAL)`
abbrev pub always_scraped : PoolKind → Bool
always_scraped indoor = true
always_scraped thermal = true
always_scraped _ = false

unfoldable pub freshness_of : Facility → ScheduleFreshness
freshness_of facility =
    if any has_rules facility.basins
    then scraped
    else if always_scraped facility.identity.kind
    then awaiting_scrape
    else no_source
