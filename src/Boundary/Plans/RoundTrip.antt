-- ===== src/Boundary/Plans/RoundTrip.antt =====
-- Lane plans (src/swimzh/boundary/mapping.py) survive the way to their DTOs and back.
use swimming_in_zurich.Base.{ℕ, some, List, [], ◌≡◌, refl, ap, All, map}
use swimming_in_zurich.Base.FrozenSet.{
  IsCanonical, IsCanonical-ext, union-IsCanonical, contains-union, contains as has, union,
}
use swimming_in_zurich.Base.Maybe.{Given, traverse-map, traverse-map_all, if_given_try-if_given}
use swimming_in_zurich.Errors.{
  ProviderError, timeout, connection_failed, http_status, rate_limited, decode_error, parse_error,
  schema_mismatch, too_large, redirect, provider_specific,
}
use swimming_in_zurich.Schedule.{Weekday}
use swimming_in_zurich.Models.{
  LanePlanUnavailable, LaneReservation, PlanCoverage, LanePlan, LanePlanOutcome, no_plan, parsed,
  unavailable,
}
use swimming_in_zurich.Panel.{sorted_weekdays, sorted_lanes}
use swimming_in_zurich.Boundary.ScheduleTokens.{weekday_from-to}
use swimming_in_zurich.Boundary.FacilityTokens.{plan_confidence_from-to}
use swimming_in_zurich.Boundary.Schedules.RoundTrip.{
  IsRange, IsWeekdays, access_from-to, weekdays_from-to, time_range-of_IsRange,
}
use swimming_in_zurich.Boundary.Plans.{
  provider_error_to_dto, provider_error_from_dto, lane_plan_unavailable_from_dto,
  lane_plan_unavailable_to_dto, lane_reservation_from_dto, lane_reservation_to_dto,
  plan_coverage_from_dto, plan_coverage_to_dto, counted_from_dto, counted_to_dto, sorted_items,
  by_weekday_from_dto, lane_plan_from_dto, lane_plan_to_dto, outcome_from_dto, outcome_to_dto,
}

pub provider_error_from-to :
    (e : ProviderError) → provider_error_from_dto (provider_error_to_dto e) ≡ e
unfolding provider_error_from_dto provider_error_to_dto
provider_error_from-to (timeout url after_s) = refl
provider_error_from-to (connection_failed url detail) = refl
provider_error_from-to (http_status url status snippet) = refl
provider_error_from-to (rate_limited url retry_after_s) = refl
provider_error_from-to (decode_error source detail) = refl
provider_error_from-to (parse_error source detail snippet) = refl
provider_error_from-to (schema_mismatch source detail) = refl
provider_error_from-to (too_large url limit_bytes) = refl
provider_error_from-to (redirect url location count) = refl
provider_error_from-to (provider_specific provider detail) = refl

-- The order of an ascending list is kept.
sorted_lanes_id : (lanes : List ℕ) → IsCanonical lanes → sorted_lanes lanes ≡ lanes
unfolding sorted_lanes has
sorted_lanes_id lanes h =
    IsCanonical-ext (union [] lanes) lanes (union-IsCanonical [] lanes tt) h
      (λ y. contains-union [] lanes y)

abbrev pub IsReservation : LaneReservation → Type 0
IsReservation r = IsWeekdays r.weekdays × IsRange r.time × IsCanonical r.lanes

-- A dict keyed by weekday, in the order of the week.
abbrev pub IsByWeekday : List (Weekday × ℕ) → Type 0
IsByWeekday d = sorted_items d ≡ d

abbrev pub IsPlan : LanePlan → Type 0
IsPlan p =
    All IsReservation p.reservations
    × IsCanonical p.coverage.unresolved_lanes
    × Given IsByWeekday p.lanes_by_weekday

abbrev pub IsOutcome : LanePlanOutcome → Type 0
IsOutcome (parsed p) = IsPlan p
IsOutcome no_plan = Unit
IsOutcome (unavailable _) = Unit

unavailable_from-to :
    (u : LanePlanUnavailable) → lane_plan_unavailable_from_dto (lane_plan_unavailable_to_dto u) ≡ u
unfolding lane_plan_unavailable_from_dto lane_plan_unavailable_to_dto
unavailable_from-to u = rw (provider_error_from-to u.cause)

lane_reservation_from-to :
    (r : LaneReservation)
    → IsReservation r
    → lane_reservation_from_dto (lane_reservation_to_dto r) ≡ some r
unfolding lane_reservation_from_dto lane_reservation_to_dto
lane_reservation_from-to r (days, time, lanes) = rw (
  weekdays_from-to (sorted_weekdays r.weekdays),
  time_range-of_IsRange r.time time,
  access_from-to r.access,
  days,
  days,
  sorted_lanes_id r.lanes lanes,
  sorted_lanes_id r.lanes lanes,
)

plan_coverage_from-to :
    (c : PlanCoverage)
    → IsCanonical c.unresolved_lanes
    → plan_coverage_from_dto (plan_coverage_to_dto c) ≡ some c
unfolding plan_coverage_from_dto plan_coverage_to_dto
plan_coverage_from-to c lanes = rw (
  plan_confidence_from-to c.confidence,
  sorted_lanes_id c.unresolved_lanes lanes,
  sorted_lanes_id c.unresolved_lanes lanes,
)

counted_from-to : (item : Weekday × ℕ) → counted_from_dto (counted_to_dto item) ≡ some item
unfolding counted_from_dto
counted_from-to (w, n) = rw (weekday_from-to w)

by_weekday_from-to :
    (d : List (Weekday × ℕ))
    → IsByWeekday d
    → by_weekday_from_dto (map counted_to_dto (sorted_items d)) ≡ some d
unfolding by_weekday_from_dto
by_weekday_from-to d h =
    rw (traverse-map_all counted_from_dto counted_to_dto counted_from-to (sorted_items d), h, h)

pub lane_plan_from-to : (p : LanePlan) → IsPlan p → lane_plan_from_dto (lane_plan_to_dto p) ≡ some p
unfolding lane_plan_from_dto lane_plan_to_dto
lane_plan_from-to p (reservations, lanes, by_weekday) = rw (
  traverse-map lane_reservation_from_dto lane_reservation_to_dto IsReservation
      lane_reservation_from-to p.reservations reservations,
  plan_coverage_from-to p.coverage lanes,
  if_given_try-if_given by_weekday_from_dto (λ d. map counted_to_dto (sorted_items d)) IsByWeekday
      by_weekday_from-to p.lanes_by_weekday by_weekday,
)

pub outcome_from-to :
    (o : LanePlanOutcome) → IsOutcome o → outcome_from_dto (outcome_to_dto o) ≡ some o
unfolding outcome_from_dto outcome_to_dto
outcome_from-to no_plan h = refl
outcome_from-to (unavailable u) h = ap (λ v. some (unavailable v)) (unavailable_from-to u)
outcome_from-to (parsed p) h = rw (lane_plan_from-to p h)
