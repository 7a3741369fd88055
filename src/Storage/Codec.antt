-- ===== src/Storage/Codec.antt =====
-- src/swimzh/storage/codec.py: a facility to its stored form and back. The JSON text of a DTO is
-- pydantic's, so that printing and parsing it are parameters (`Pydantic`).
pub mod RoundTrip
pub mod Recoded
pub mod Invariant
use swimming_in_zurich.Base.{
  ℕ, Bool, Option, none, some, List, [], ◌∷◌, String, str_eq, if◌then◌else◌, map,
}
use swimming_in_zurich.Base.Maybe.{◌>>=◌, if_given, if_given_try, traverse}
use swimming_in_zurich.Dates.{Date}
use swimming_in_zurich.Errors.{Datetime}
use swimming_in_zurich.Models.{Facility, Notice, Admission, free, tariff, unknown, PriceTable}
use swimming_in_zurich.Catalog.{ScheduleFreshness, no_source, freshness_of}
use swimming_in_zurich.Boundary.ScheduleTokens.{policy_to, policy_from}
use swimming_in_zurich.Boundary.FacilityTokens.{pool_kind_to, pool_kind_from}
use swimming_in_zurich.Boundary.Dto.{
  GeoDto, PriceTableDto, OperatingSeasonDto, ClosureDto, BasinDto, FeatureDto, LockerOptionDto,
  RentalItemDto,
}
use swimming_in_zurich.Boundary.Schedules.{
  operating_season_from_dto, operating_season_to_dto, closure_from_dto, closure_to_dto,
}
use swimming_in_zurich.Boundary.Facilities.{
  basin_from_dto, basin_to_dto, feature_from_dto, feature_to_dto, locker_from_dto, locker_to_dto,
  rental_from_dto, rental_to_dto, price_table_from_dto, price_table_to_dto, geo_from_dto,
  geo_to_dto,
}

pub record NoticeDto : Type 0 where
  pub text : String
  pub active_from : Option Date
  pub active_to : Option Date

pub record StoredFacilityDto : Type 0 where
  pub facility_id : String
  pub name : String
  pub kind : String
  pub address : String
  pub source : String
  pub curated : Bool
  pub valid_as_of : Option Date
  pub fetched_at : Option Datetime
  pub geo_sport_id : Option String
  pub crowdmonitor_keys : List String
  pub baditicker_poiid : Option String
  pub aliases : List String
  pub geo : Option GeoDto
  pub public_holiday_policy : Option String
  pub prices : Option PriceTableDto
  pub admission_state : Option String
  pub operating_season : Option OperatingSeasonDto
  pub closures : List ClosureDto
  pub basins : List BasinDto
  pub notices : List NoticeDto
  pub features : List FeatureDto
  pub lockers : List LockerOptionDto
  pub rentals : List RentalItemDto
  pub last_admission_before : Option ℕ

-- `_admission_to_stored`
unfoldable pub admission_to_stored : Admission → Option PriceTableDto × Option String
admission_to_stored (tariff table) = (some (price_table_to_dto table), none)
admission_to_stored free = (none, some "free")
admission_to_stored unknown = (none, none)

-- `admission_state == "free"`
abbrev stated : Option String → Admission
stated none = unknown
stated (some state) = if str_eq state "free" then free else unknown

-- `_admission_from_stored`
unfoldable pub admission_from_stored : Option PriceTableDto → Option String → Option Admission
admission_from_stored (some prices) state = do
  table ← price_table_from_dto prices
  some (tariff table)
admission_from_stored none state = some (stated state)

unfoldable pub notice_to_dto : Notice → NoticeDto
notice_to_dto n = record { text = n.text; active_from = n.active_from; active_to = n.active_to }

unfoldable pub notice_from_dto : NoticeDto → Notice
notice_from_dto n = record { text = n.text; active_from = n.active_from; active_to = n.active_to }

unfoldable pub to_stored : Facility → StoredFacilityDto
to_stored facility =
    let ident = facility.identity in
    let prov = facility.provenance in
    let (prices, admission_state) = admission_to_stored facility.admission in
    record {
      facility_id = ident.facility_id;
      name = ident.name;
      kind = pool_kind_to ident.kind;
      address = facility.address;
      source = prov.source;
      curated = prov.curated;
      valid_as_of = prov.valid_as_of;
      fetched_at = prov.fetched_at;
      geo_sport_id = ident.geo_sport_id;
      crowdmonitor_keys = ident.crowdmonitor_keys;
      baditicker_poiid = ident.baditicker_poiid;
      aliases = ident.aliases;
      geo = if_given geo_to_dto facility.geo;
      public_holiday_policy = if_given policy_to facility.public_holiday_policy;
      prices = prices;
      admission_state = admission_state;
      operating_season = if_given operating_season_to_dto facility.operating_season;
      closures = map closure_to_dto facility.closures;
      basins = map basin_to_dto facility.basins;
      notices = map notice_to_dto facility.notices;
      features = map feature_to_dto facility.features;
      lockers = map locker_to_dto facility.lockers;
      rentals = map rental_to_dto facility.rentals;
      last_admission_before = facility.last_admission_before;
    }

unfoldable pub from_stored : (String → String) → StoredFacilityDto → Option Facility
from_stored casefold stored = do
  kind ← pool_kind_from stored.kind
  basins ← traverse (basin_from_dto casefold) stored.basins
  policy ← if_given_try policy_from stored.public_holiday_policy
  season ← if_given_try operating_season_from_dto stored.operating_season
  admission ← admission_from_stored stored.prices stored.admission_state
  features ← traverse feature_from_dto stored.features
  lockers ← traverse locker_from_dto stored.lockers
  rentals ← traverse rental_from_dto stored.rentals
  some (record {
    identity = record {
      facility_id = stored.facility_id;
      name = stored.name;
      kind = kind;
      geo_sport_id = stored.geo_sport_id;
      crowdmonitor_keys = stored.crowdmonitor_keys;
      baditicker_poiid = stored.baditicker_poiid;
      aliases = stored.aliases;
    };
    address = stored.address;
    provenance = record {
      source = stored.source;
      curated = stored.curated;
      valid_as_of = stored.valid_as_of;
      fetched_at = stored.fetched_at;
    };
    basins = basins;
    geo = if_given geo_from_dto stored.geo;
    closures = map (closure_from_dto casefold) stored.closures;
    public_holiday_policy = policy;
    operating_season = season;
    admission = admission;
    notices = map notice_from_dto stored.notices;
    features = features;
    lockers = lockers;
    rentals = rentals;
    last_admission_before = stored.last_admission_before;
  })

-- `model_dump_json` and `model_validate_json` of a DTO; `none` is a ValidationError.
pub record Pydantic (Dto : Type 0) : Type 0 where
  pub model_dump_json : Dto → String
  pub model_validate_json : String → Option Dto

unfoldable pub dumps : Pydantic StoredFacilityDto → Facility → String
dumps pydantic facility = pydantic.model_dump_json (to_stored facility)

unfoldable pub loads : (String → String) → Pydantic StoredFacilityDto → String → Option Facility
loads casefold pydantic payload = do
  stored ← pydantic.model_validate_json payload
  from_stored casefold stored

unfoldable pub schedule_freshness :
    (String → String) → Pydantic StoredFacilityDto → Option String → Option ScheduleFreshness
schedule_freshness casefold pydantic none = some no_source
schedule_freshness casefold pydantic (some facility_doc) = do
  facility ← loads casefold pydantic facility_doc
  some (freshness_of facility)
