-- ===== src/Storage/CatalogJson.antt =====
-- src/swimzh/storage/catalog_json.py: the catalog of pools to its stored form and back. The JSON text
-- is pydantic's (see Codec).
use swimming_in_zurich.Base.{ℕ, Option, none, some, List, String, map, length, ◌≡◌, refl}
use swimming_in_zurich.Base.Maybe.{◌>>=◌, traverse, traverse-map_all}
use swimming_in_zurich.Errors.{Float, Datetime}
use swimming_in_zurich.Models.{GeoPoint}
use swimming_in_zurich.Catalog.{PoolCatalogEntry}
use swimming_in_zurich.Boundary.FacilityTokens.{pool_kind_to, pool_kind_from, pool_kind_from-to}
use swimming_in_zurich.Storage.Codec.{Pydantic}
use swimming_in_zurich.Storage.Codec.RoundTrip.{IsFaithful}

pub record EntryDto : Type 0 where
  pub pool_id : String
  pub name : String
  pub kind : String
  pub address : String
  pub lat : Option Float
  pub lon : Option Float
  pub url : Option String
  pub description : Option String
  pub phone : Option String
  pub poi_id : Option String

pub record CatalogDto : Type 0 where
  pub generated_at : Datetime
  pub count : ℕ
  pub entries : List EntryDto

abbrev lat_of : Option GeoPoint → Option Float
lat_of none = none
lat_of (some geo) = some geo.lat

abbrev lon_of : Option GeoPoint → Option Float
lon_of none = none
lon_of (some geo) = some geo.lon

unfoldable pub entry_to_dto : PoolCatalogEntry → EntryDto
entry_to_dto entry = record {
  pool_id = entry.pool_id;
  name = entry.name;
  kind = pool_kind_to entry.kind;
  address = entry.address;
  lat = lat_of entry.geo;
  lon = lon_of entry.geo;
  url = entry.url;
  description = entry.description;
  phone = entry.phone;
  poi_id = entry.poi_id;
}

-- A place needs both coordinates.
unfoldable pub geo_of : Option Float → Option Float → Option GeoPoint
geo_of (some lat) (some lon) = some (record { lat = lat; lon = lon })
geo_of _ _ = none

unfoldable pub entry_from_dto : EntryDto → Option PoolCatalogEntry
unfolding geo_of
entry_from_dto dto = do
  kind ← pool_kind_from dto.kind
  some (record {
    pool_id = dto.pool_id;
    name = dto.name;
    kind = kind;
    address = dto.address;
    geo = geo_of dto.lat dto.lon;
    url = dto.url;
    description = dto.description;
    phone = dto.phone;
    poi_id = dto.poi_id;
  })

abbrev pub catalog_of : List PoolCatalogEntry → Datetime → CatalogDto
catalog_of entries generated_at = record {
  generated_at = generated_at;
  count = length entries;
  entries = map entry_to_dto entries;
}

unfoldable pub catalog_dumps : Pydantic CatalogDto → List PoolCatalogEntry → Datetime → String
catalog_dumps pydantic entries generated_at =
    pydantic.model_dump_json (catalog_of entries generated_at)

unfoldable pub catalog_loads : Pydantic CatalogDto → String → Option (List PoolCatalogEntry)
catalog_loads pydantic text = do
  catalog ← pydantic.model_validate_json text
  traverse entry_from_dto catalog.entries

geo_of-parts : (geo : Option GeoPoint) → geo_of (lat_of geo) (lon_of geo) ≡ geo
unfolding geo_of
geo_of-parts none = refl
geo_of-parts (some geo) = refl

entry_from-to : (e : PoolCatalogEntry) → entry_from_dto (entry_to_dto e) ≡ some e
unfolding entry_from_dto entry_to_dto
entry_from-to e = rw (pool_kind_from-to e.kind, geo_of-parts e.geo)

-- A catalog that is written and read back has the same entries in the same order, whatever the time
-- of writing, if pydantic reads back the text that it has written of it.
pub catalog_loads-catalog_dumps :
    (pydantic : Pydantic CatalogDto) (entries : List PoolCatalogEntry) (generated_at : Datetime)
    → IsFaithful CatalogDto pydantic (catalog_of entries generated_at)
    → catalog_loads pydantic (catalog_dumps pydantic entries generated_at) ≡ some entries
unfolding catalog_loads catalog_dumps
catalog_loads-catalog_dumps pydantic entries generated_at faithful =
    rw (faithful, traverse-map_all entry_from_dto entry_to_dto entry_from-to entries)
