-- ===== src/Storage/Codec/Invariant.antt =====
-- What src/swimzh/storage/codec.py loads is a facility as the constructors allow it.
use swimming_in_zurich.Base.{Option, some, List, [], ◌∷◌, String, ◌≡◌, subst, All, map}
use swimming_in_zurich.Base.Maybe.{
  Any, Any-Given, Given, traverse, if_given_try, >>=-Given, traverse-Given, if_given_try-Given,
}
use swimming_in_zurich.Models.{Facility}
use swimming_in_zurich.Boundary.Dto.{ClosureDto}
use swimming_in_zurich.Boundary.ScheduleTokens.{policy_from}
use swimming_in_zurich.Boundary.FacilityTokens.{pool_kind_from}
use swimming_in_zurich.Boundary.Schedules.{operating_season_from_dto, closure_from_dto}
use swimming_in_zurich.Boundary.Schedules.RoundTrip.{IsClosure, IsSeason}
use swimming_in_zurich.Boundary.Schedules.Invariant.{
  operating_season_from_dto-Given, closure_from_dto-IsClosure,
}
use swimming_in_zurich.Boundary.Facilities.{
  basin_from_dto, feature_from_dto, locker_from_dto, rental_from_dto,
}
use swimming_in_zurich.Boundary.Facilities.RoundTrip.{IsBasin, IsFeature}
use swimming_in_zurich.Boundary.Facilities.Invariant.{basin_from_dto-Given, feature_from_dto-Given}
use swimming_in_zurich.Storage.Codec.{
  StoredFacilityDto, admission_from_stored, to_stored, from_stored,
}
use swimming_in_zurich.Storage.Codec.RoundTrip.{IsFacility, from_stored-to_stored}

closures-IsClosure :
    (casefold : String → String) (dtos : List ClosureDto)
    → All (IsClosure casefold) (map (closure_from_dto casefold) dtos)
closures-IsClosure casefold [] = tt
closures-IsClosure casefold (dto ∷ dtos) =
    (closure_from_dto-IsClosure casefold dto, closures-IsClosure casefold dtos)

from_stored-Given :
    (casefold : String → String) (s : StoredFacilityDto)
    → Given (IsFacility casefold) (from_stored casefold s)
unfolding from_stored
from_stored-Given casefold s =
    >>=-Given Any Good (pool_kind_from s.kind) _ (Any-Given (pool_kind_from s.kind)) λ _ _.
      >>=-Given (All (IsBasin casefold)) Good (traverse (basin_from_dto casefold) s.basins) _
        (traverse-Given (IsBasin casefold) (basin_from_dto casefold) (basin_from_dto-Given casefold)
          s.basins)
        λ _ basins.
          >>=-Given Any Good (if_given_try policy_from s.public_holiday_policy) _
            (Any-Given (if_given_try policy_from s.public_holiday_policy))
            λ _ _.
              >>=-Given (Given IsSeason) Good
                (if_given_try operating_season_from_dto s.operating_season) _
                (if_given_try-Given IsSeason operating_season_from_dto
                  operating_season_from_dto-Given s.operating_season)
                λ _ season.
                  >>=-Given Any Good (admission_from_stored s.prices s.admission_state) _
                    (Any-Given (admission_from_stored s.prices s.admission_state))
                    λ _ _.
                      >>=-Given (All IsFeature) Good (traverse feature_from_dto s.features) _
                        (traverse-Given IsFeature feature_from_dto feature_from_dto-Given
                          s.features)
                        λ _ features.
                          >>=-Given Any Good (traverse locker_from_dto s.lockers) _
                            (Any-Given (traverse locker_from_dto s.lockers))
                            λ _ _.
                              >>=-Given Any Good (traverse rental_from_dto s.rentals) _
                                (Any-Given (traverse rental_from_dto s.rentals))
                                λ _ _.
                                  (basins, closures-IsClosure casefold s.closures, season, features)
  where
    Good : Facility → Type 0
    Good = IsFacility casefold

-- Whatever document is decoded, the facility that comes out is one that the constructors allow: each
-- time range ends after it starts, each season is between days that exist, sets and dicts are in
-- order, and each closure has the code that its reason gives. Storing it and reading it back gives
-- the same facility again.
pub from_stored-IsFacility :
    (casefold : String → String) (s : StoredFacilityDto) (f : Facility)
    → from_stored casefold s ≡ some f
    → IsFacility casefold f × (from_stored casefold (to_stored f) ≡ some f)
from_stored-IsFacility casefold s f h =
    let good =
      subst (λ (o : Option Facility). Given (IsFacility casefold) o) h
        (from_stored-Given casefold s) in
    (good, from_stored-to_stored casefold f good)
