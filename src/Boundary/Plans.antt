-- ===== src/Boundary/Plans.antt =====
-- src/swimzh/boundary/mapping.py: provider errors, lane plans and basins, to their DTOs and back.
pub mod RoundTrip
use swimming_in_zurich.Base.{ℕ, ◌==◌, if◌then◌else◌, Option, none, some, List, [], ◌∷◌, String, map}
use swimming_in_zurich.Base.Maybe.{◌>>=◌, if_given, if_given_try, traverse}
use swimming_in_zurich.Errors.{
  ProviderError, timeout, connection_failed, http_status, rate_limited, decode_error, parse_error,
  schema_mismatch, too_large, redirect, provider_specific,
}
use swimming_in_zurich.Schedule.{Weekday, weekday_value, time_range}
use swimming_in_zurich.Models.{
  Dimensions, LanePlanSource, LanePlanUnavailable, LaneReservation, PlanCoverage, LanePlan,
  LanePlanOutcome, no_plan, parsed, unavailable, Basin,
}
use swimming_in_zurich.Panel.{week, sorted_weekdays, sorted_lanes}
use swimming_in_zurich.Boundary.ScheduleTokens.{weekday_to, weekday_from}
use swimming_in_zurich.Boundary.FacilityTokens.{
  basin_kind_to, basin_kind_from, basin_source_to, basin_source_from, plan_confidence_to,
  plan_confidence_from,
}
use swimming_in_zurich.Boundary.Dto.{
  DimensionsDto, ProviderErrorDto, LanePlanSourceDto, LanePlanUnavailableDto, LaneReservationDto,
  PlanCoverageDto, LanePlanDto, LaneOutcomeDto, BasinDto,
}
use swimming_in_zurich.Boundary.Schedules.{
  access_from_dto, access_to_dto, rule_from_dto, rule_to_dto, exception_from_dto, exception_to_dto,
}

unfoldable pub dimensions_from_dto : DimensionsDto → Dimensions
dimensions_from_dto dto = record { length_m = dto.length_m; width_m = dto.width_m }

unfoldable pub dimensions_to_dto : Dimensions → DimensionsDto
dimensions_to_dto dims = record { length_m = dims.length_m; width_m = dims.width_m }

unfoldable pub provider_error_to_dto : ProviderError → ProviderErrorDto
provider_error_to_dto (timeout url after_s) = ProviderErrorDto.timeout url after_s
provider_error_to_dto (connection_failed url detail) = ProviderErrorDto.connection_failed url detail
provider_error_to_dto (http_status url status snippet) =
    ProviderErrorDto.http_status url status snippet
provider_error_to_dto (rate_limited url retry_after_s) =
    ProviderErrorDto.rate_limited url retry_after_s
provider_error_to_dto (decode_error source detail) = ProviderErrorDto.decode_error source detail
provider_error_to_dto (parse_error source detail snippet) =
    ProviderErrorDto.parse_error source detail snippet
provider_error_to_dto (schema_mismatch source detail) =
    ProviderErrorDto.schema_mismatch source detail
provider_error_to_dto (too_large url limit_bytes) = ProviderErrorDto.too_large url limit_bytes
provider_error_to_dto (redirect url location count) = ProviderErrorDto.redirect url location count
provider_error_to_dto (provider_specific provider detail) =
    ProviderErrorDto.provider_specific provider detail

unfoldable pub provider_error_from_dto : ProviderErrorDto → ProviderError
provider_error_from_dto (ProviderErrorDto.timeout url after_s) = timeout url after_s
provider_error_from_dto (ProviderErrorDto.connection_failed url detail) =
    connection_failed url detail
provider_error_from_dto (ProviderErrorDto.http_status url status snippet) =
    http_status url status snippet
provider_error_from_dto (ProviderErrorDto.rate_limited url retry_after_s) =
    rate_limited url retry_after_s
provider_error_from_dto (ProviderErrorDto.decode_error source detail) = decode_error source detail
provider_error_from_dto (ProviderErrorDto.parse_error source detail snippet) =
    parse_error source detail snippet
provider_error_from_dto (ProviderErrorDto.schema_mismatch source detail) =
    schema_mismatch source detail
provider_error_from_dto (ProviderErrorDto.too_large url limit_bytes) = too_large url limit_bytes
provider_error_from_dto (ProviderErrorDto.redirect url location count) = redirect url location count
provider_error_from_dto (ProviderErrorDto.provider_specific provider detail) =
    provider_specific provider detail

unfoldable pub lane_plan_source_from_dto : LanePlanSourceDto → LanePlanSource
lane_plan_source_from_dto dto = record { url = dto.url; section = dto.section }

unfoldable pub lane_plan_source_to_dto : LanePlanSource → LanePlanSourceDto
lane_plan_source_to_dto source = record { url = source.url; section = source.section }

unfoldable pub lane_plan_unavailable_from_dto : LanePlanUnavailableDto → LanePlanUnavailable
lane_plan_unavailable_from_dto dto = record {
  source_url = dto.source_url;
  section = dto.section;
  cause = provider_error_from_dto dto.cause;
  observed_at = dto.observed_at;
}

unfoldable pub lane_plan_unavailable_to_dto : LanePlanUnavailable → LanePlanUnavailableDto
lane_plan_unavailable_to_dto u = record {
  source_url = u.source_url;
  cause = provider_error_to_dto u.cause;
  observed_at = u.observed_at;
  section = u.section;
}

unfoldable pub lane_reservation_from_dto : LaneReservationDto → Option LaneReservation
lane_reservation_from_dto dto = do
  weekdays ← traverse weekday_from dto.weekdays
  time ← time_range dto.start dto.end
  some (record {
    weekdays = sorted_weekdays weekdays;
    time = time;
    lanes = sorted_lanes dto.lanes;
    access = access_from_dto dto.access;
    section = dto.section;
  })

unfoldable pub lane_reservation_to_dto : LaneReservation → LaneReservationDto
lane_reservation_to_dto r = record {
  weekdays = map weekday_to (sorted_weekdays r.weekdays);
  start = r.time.start;
  end = r.time.end;
  lanes = sorted_lanes r.lanes;
  access = access_to_dto r.access;
  section = r.section;
}

unfoldable pub plan_coverage_from_dto : PlanCoverageDto → Option PlanCoverage
plan_coverage_from_dto dto = do
  confidence ← plan_confidence_from dto.confidence
  some (record {
    confidence = confidence;
    cells_total = dto.cells_total;
    cells_resolved = dto.cells_resolved;
    unresolved_lanes = sorted_lanes dto.unresolved_lanes;
  })

unfoldable pub plan_coverage_to_dto : PlanCoverage → PlanCoverageDto
plan_coverage_to_dto coverage = record {
  confidence = plan_confidence_to coverage.confidence;
  cells_total = coverage.cells_total;
  cells_resolved = coverage.cells_resolved;
  unresolved_lanes = sorted_lanes coverage.unresolved_lanes;
}

-- An item of `lanes_by_weekday`.
unfoldable pub counted_from_dto : String × ℕ → Option (Weekday × ℕ)
counted_from_dto (token, n) = do w ← weekday_from token; some (w, n)

abbrev pub counted_to_dto : Weekday × ℕ → String × ℕ
counted_to_dto (w, n) = (weekday_to w, n)

-- `d[w]`, on a dict as its items.
unfoldable pub lanes_on : Weekday → List (Weekday × ℕ) → Option ℕ
lanes_on w [] = none
lanes_on w ((v, n) ∷ rest) = if weekday_value v == weekday_value w then some n else lanes_on w rest

abbrev with_item : Weekday → Option ℕ → List (Weekday × ℕ) → List (Weekday × ℕ)
with_item w none rest = rest
with_item w (some n) rest = (w, n) ∷ rest

unfoldable pub items_of : List Weekday → List (Weekday × ℕ) → List (Weekday × ℕ)
items_of [] d = []
items_of (w ∷ ws) d = with_item w (lanes_on w d) (items_of ws d)

-- `{w: d[w] for w in sorted(d)}`
unfoldable pub sorted_items : List (Weekday × ℕ) → List (Weekday × ℕ)
unfolding items_of lanes_on
sorted_items d = items_of week d

-- The dict of the weekdays' lane counts; a dict is its items in the order of the week.
unfoldable pub by_weekday_from_dto : List (String × ℕ) → Option (List (Weekday × ℕ))
by_weekday_from_dto items = do
  counted ← traverse counted_from_dto items
  some (sorted_items counted)

unfoldable pub lane_plan_from_dto : LanePlanDto → Option LanePlan
lane_plan_from_dto dto = do
  reservations ← traverse lane_reservation_from_dto dto.reservations
  coverage ← plan_coverage_from_dto dto.coverage
  lanes_by_weekday ← if_given_try by_weekday_from_dto dto.lanes_by_weekday
  some (record {
    lane_count = dto.lane_count;
    reservations = reservations;
    valid_from = dto.valid_from;
    coverage = coverage;
    fetched_at = dto.fetched_at;
    lanes_by_weekday = lanes_by_weekday;
  })

unfoldable pub lane_plan_to_dto : LanePlan → LanePlanDto
lane_plan_to_dto plan = record {
  lane_count = plan.lane_count;
  reservations = map lane_reservation_to_dto plan.reservations;
  valid_from = plan.valid_from;
  coverage = plan_coverage_to_dto plan.coverage;
  fetched_at = plan.fetched_at;
  lanes_by_weekday = if_given (λ d. map counted_to_dto (sorted_items d)) plan.lanes_by_weekday;
}

-- `_basin_lane_plan_from_dto`
unfoldable pub outcome_from_dto : LaneOutcomeDto → Option LanePlanOutcome
outcome_from_dto LaneOutcomeDto.no_plan = some no_plan
outcome_from_dto (LaneOutcomeDto.unavailable u) =
    some (unavailable (lane_plan_unavailable_from_dto u))
outcome_from_dto (LaneOutcomeDto.parsed p) = do plan ← lane_plan_from_dto p; some (parsed plan)

-- `_basin_lane_plan_to_dto`
unfoldable pub outcome_to_dto : LanePlanOutcome → LaneOutcomeDto
outcome_to_dto no_plan = LaneOutcomeDto.no_plan
outcome_to_dto (unavailable u) = LaneOutcomeDto.unavailable (lane_plan_unavailable_to_dto u)
outcome_to_dto (parsed p) = LaneOutcomeDto.parsed (lane_plan_to_dto p)
