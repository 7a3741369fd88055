-- ===== src/Storage/Codec/RoundTrip.antt =====
-- What src/swimzh/storage/codec.py stores, it loads again.
use swimming_in_zurich.Base.{some, List, [], ◌∷◌, String, ◌≡◌, refl, All, map}
use swimming_in_zurich.Base.Maybe.{
  Given, traverse-map, traverse-map_all, if_given_try-if_given, if_given_try-if_given_all,
  if_given-if_given, map-map_back,
}
use swimming_in_zurich.Schedule.{ClosureRange}
use swimming_in_zurich.Models.{Facility, Notice, GeoPoint, Admission, free, tariff, unknown}
use swimming_in_zurich.Boundary.ScheduleTokens.{policy_to, policy_from, policy_from-to}
use swimming_in_zurich.Boundary.FacilityTokens.{pool_kind_from-to}
use swimming_in_zurich.Boundary.Schedules.{
  operating_season_from_dto, operating_season_to_dto, closure_from_dto, closure_to_dto,
}
use swimming_in_zurich.Boundary.Schedules.RoundTrip.{
  IsClosure, IsSeason, operating_season_from-to, closure_from-to,
}
use swimming_in_zurich.Boundary.Facilities.{
  basin_from_dto, basin_to_dto, feature_from_dto, feature_to_dto, locker_from_dto, locker_to_dto,
  rental_from_dto, rental_to_dto, geo_from_dto, geo_to_dto,
}
use swimming_in_zurich.Boundary.Facilities.RoundTrip.{
  IsBasin, IsFeature, basin_from-to, feature_from-to, locker_from-to, rental_from-to,
  price_table_from-to,
}
use swimming_in_zurich.Storage.Codec.{
  StoredFacilityDto, admission_to_stored, admission_from_stored, notice_to_dto, notice_from_dto,
  to_stored, from_stored, Pydantic, dumps, loads,
}

-- A facility that its DTO can express: time ranges and windows as the constructors allow them, sets in
-- their order, and closures and exceptions whose code is the one that their reason gives. A constructor
-- also takes another code, which the DTO has no field for.
abbrev pub IsFacility : (String → String) → Facility → Type 0
IsFacility casefold f =
    All (IsBasin casefold) f.basins
    × All (IsClosure casefold) f.closures
    × Given IsSeason f.operating_season
    × All IsFeature f.features

admission_from-to :
    (a : Admission)
    → admission_from_stored (admission_to_stored a).0 (admission_to_stored a).1 ≡ some a
unfolding admission_from_stored admission_to_stored
admission_from-to (tariff table) = rw (price_table_from-to table)
admission_from-to free = refl
admission_from-to unknown = refl

geo_from-to : (g : GeoPoint) → geo_from_dto (geo_to_dto g) ≡ g
unfolding geo_from_dto geo_to_dto
geo_from-to g = refl

notice_from-to : (n : Notice) → notice_from_dto (notice_to_dto n) ≡ n
unfolding notice_from_dto notice_to_dto
notice_from-to n = refl

closures_from-to :
    (casefold : String → String) (cs : List ClosureRange)
    → All (IsClosure casefold) cs
    → map (closure_from_dto casefold) (map closure_to_dto cs) ≡ cs
closures_from-to casefold [] h = refl
closures_from-to casefold (c ∷ cs) h =
    rw (closure_from-to casefold c h.0, closures_from-to casefold cs h.1)

-- A facility is the same after it is stored and read back, if its time ranges and windows are ones that
-- their constructors allow, its sets are in their order, and the code of each of its closures and
-- exceptions is the one that its reason gives: nothing of its identity, provenance, tariff, seasons,
-- basins, plans, closures or items is lost or changed.
pub from_stored-to_stored :
    (casefold : String → String) (f : Facility)
    → IsFacility casefold f
    → from_stored casefold (to_stored f) ≡ some f
unfolding from_stored to_stored
from_stored-to_stored casefold f (basins, closures, season, features) = rw (
  pool_kind_from-to f.identity.kind,
  traverse-map (basin_from_dto casefold) basin_to_dto (IsBasin casefold) (basin_from-to casefold)
      f.basins basins,
  if_given_try-if_given_all policy_from policy_to policy_from-to f.public_holiday_policy,
  if_given_try-if_given operating_season_from_dto operating_season_to_dto IsSeason
      operating_season_from-to f.operating_season season,
  admission_from-to f.admission,
  traverse-map feature_from_dto feature_to_dto IsFeature feature_from-to f.features features,
  traverse-map_all locker_from_dto locker_to_dto locker_from-to f.lockers,
  traverse-map_all rental_from_dto rental_to_dto rental_from-to f.rentals,
  if_given-if_given geo_from_dto geo_to_dto geo_from-to f.geo,
  closures_from-to casefold f.closures closures,
  map-map_back notice_from_dto notice_to_dto notice_from-to f.notices,
)

-- pydantic reads back the text that it has written of a DTO.
abbrev pub IsFaithful : (Dto : Type 0) → Pydantic Dto → Dto → Type 0
IsFaithful Dto pydantic dto = pydantic.model_validate_json (pydantic.model_dump_json dto) ≡ some dto

pub loads-dumps :
    (casefold : String → String) (pydantic : Pydantic StoredFacilityDto) (f : Facility)
    → IsFaithful StoredFacilityDto pydantic (to_stored f)
    → IsFacility casefold f
    → loads casefold pydantic (dumps pydantic f) ≡ some f
unfolding loads dumps
loads-dumps casefold pydantic f faithful h = rw (faithful, from_stored-to_stored casefold f h)
