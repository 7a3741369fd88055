-- ===== src/Boundary/Facilities/Invariant.antt =====
-- Lane plans, basins and features that src/swimzh/boundary/mapping.py makes of DTOs are as the
-- constructors allow them.
use swimming_in_zurich.Base.{ℕ, List, [], String, All}
use swimming_in_zurich.Base.FrozenSet.{IsCanonical, union-IsCanonical}
use swimming_in_zurich.Base.Maybe.{
  Any, Any-Given, Given, traverse, if_given_try, >>=-Given, traverse-Given, if_given_try-Given,
}
use swimming_in_zurich.Schedule.{time_range}
use swimming_in_zurich.Panel.{sorted_lanes}
use swimming_in_zurich.Boundary.Dto.{
  LaneReservationDto, LanePlanDto, LaneOutcomeDto, BasinDto, FeatureDto,
}
use swimming_in_zurich.Boundary.ScheduleTokens.{weekday_from}
use swimming_in_zurich.Boundary.FacilityTokens.{
  plan_confidence_from, basin_kind_from, basin_source_from, feature_kind_from,
}
use swimming_in_zurich.Boundary.Weekdays.{sorted_weekdays_idem, sorted_items_idem}
use swimming_in_zurich.Boundary.Schedules.{rule_from_dto, exception_from_dto}
use swimming_in_zurich.Boundary.Schedules.RoundTrip.{IsRange, IsRule, IsException}
use swimming_in_zurich.Boundary.Schedules.Invariant.{
  time_range-Given, rule_from_dto-Given, exception_from_dto-Given,
}
use swimming_in_zurich.Boundary.Plans.{
  lane_reservation_from_dto, plan_coverage_from_dto, counted_from_dto, by_weekday_from_dto,
  lane_plan_from_dto, outcome_from_dto,
}
use swimming_in_zurich.Boundary.Plans.RoundTrip.{IsReservation, IsByWeekday, IsPlan, IsOutcome}
use swimming_in_zurich.Boundary.Facilities.{basin_from_dto, feature_from_dto}
use swimming_in_zurich.Boundary.Facilities.RoundTrip.{IsBasin, IsFeature}

sorted_lanes-IsCanonical : (lanes : List ℕ) → IsCanonical (sorted_lanes lanes)
unfolding sorted_lanes
sorted_lanes-IsCanonical lanes = union-IsCanonical [] lanes tt

lane_reservation_from_dto-Given :
    (dto : LaneReservationDto) → Given IsReservation (lane_reservation_from_dto dto)
unfolding lane_reservation_from_dto
lane_reservation_from_dto-Given dto =
    >>=-Given Any IsReservation (traverse weekday_from dto.weekdays) _
      (Any-Given (traverse weekday_from dto.weekdays))
      λ ws _.
        >>=-Given IsRange IsReservation (time_range dto.start dto.end) _
          (time_range-Given dto.start dto.end)
          λ t range. (sorted_weekdays_idem ws, range, sorted_lanes-IsCanonical dto.lanes)

by_weekday_from_dto-Given :
    (items : List (String × ℕ)) → Given IsByWeekday (by_weekday_from_dto items)
unfolding by_weekday_from_dto
by_weekday_from_dto-Given items =
    >>=-Given Any IsByWeekday (traverse counted_from_dto items) _
      (Any-Given (traverse counted_from_dto items)) λ d _. sorted_items_idem d

lane_plan_from_dto-Given : (dto : LanePlanDto) → Given IsPlan (lane_plan_from_dto dto)
unfolding lane_plan_from_dto plan_coverage_from_dto
lane_plan_from_dto-Given dto =
    >>=-Given (All IsReservation) IsPlan (traverse lane_reservation_from_dto dto.reservations) _
      (traverse-Given IsReservation lane_reservation_from_dto lane_reservation_from_dto-Given
        dto.reservations)
      λ rs reservations.
        >>=-Given (λ c. IsCanonical c.unresolved_lanes) IsPlan (plan_coverage_from_dto dto.coverage)
          _
          (>>=-Given Any (λ c. IsCanonical c.unresolved_lanes)
            (plan_confidence_from dto.coverage.confidence) _
            (Any-Given (plan_confidence_from dto.coverage.confidence))
            λ _ _. sorted_lanes-IsCanonical dto.coverage.unresolved_lanes)
          λ c lanes.
            >>=-Given (Given IsByWeekday) IsPlan
              (if_given_try by_weekday_from_dto dto.lanes_by_weekday) _
              (if_given_try-Given IsByWeekday by_weekday_from_dto by_weekday_from_dto-Given
                dto.lanes_by_weekday)
              λ _ by_weekday. (reservations, lanes, by_weekday)

outcome_from_dto-Given : (dto : LaneOutcomeDto) → Given IsOutcome (outcome_from_dto dto)
unfolding outcome_from_dto
outcome_from_dto-Given LaneOutcomeDto.no_plan = tt
outcome_from_dto-Given (LaneOutcomeDto.unavailable u) = tt
outcome_from_dto-Given (LaneOutcomeDto.parsed p) =
    >>=-Given IsPlan IsOutcome (lane_plan_from_dto p) _ (lane_plan_from_dto-Given p) λ _ h. h

pub basin_from_dto-Given :
    (casefold : String → String) (dto : BasinDto)
    → Given (IsBasin casefold) (basin_from_dto casefold dto)
unfolding basin_from_dto
basin_from_dto-Given casefold dto =
    >>=-Given (All IsRule) (IsBasin casefold) (traverse rule_from_dto dto.rules) _
      (traverse-Given IsRule rule_from_dto rule_from_dto-Given dto.rules)
      λ _ rules.
        >>=-Given (All (IsException casefold)) (IsBasin casefold)
          (traverse (exception_from_dto casefold) dto.exceptions) _
          (traverse-Given (IsException casefold) (exception_from_dto casefold)
            (exception_from_dto-Given casefold) dto.exceptions)
          λ _ exceptions.
            >>=-Given Any (IsBasin casefold) (basin_kind_from dto.kind) _
              (Any-Given (basin_kind_from dto.kind))
              λ _ _.
                >>=-Given Any (IsBasin casefold) (basin_source_from dto.physical_source) _
                  (Any-Given (basin_source_from dto.physical_source))
                  λ _ _.
                    >>=-Given IsOutcome (IsBasin casefold) (outcome_from_dto dto.lane_plan) _
                      (outcome_from_dto-Given dto.lane_plan) λ _ plan. (rules, exceptions, plan)

pub feature_from_dto-Given : (dto : FeatureDto) → Given IsFeature (feature_from_dto dto)
unfolding feature_from_dto
feature_from_dto-Given dto =
    >>=-Given Any IsFeature (feature_kind_from dto.kind) _ (Any-Given (feature_kind_from dto.kind))
      λ _ _.
        >>=-Given (All IsRule) IsFeature (traverse rule_from_dto dto.hours) _
          (traverse-Given IsRule rule_from_dto rule_from_dto-Given dto.hours) λ _ hours. hours
