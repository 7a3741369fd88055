-- ===== src/Query/Statuses.antt =====
-- src/swimzh/domain/query.py: the statuses of facilities that give no option. `none` is an exception
-- that leaves the function: the AssertionError of `_seasonal_status`, the KeyError of the table of
-- freshness codes, the ValueError of a distance.
use swimming_in_zurich.Base.{
  Bool, true, false, not, ◌&&◌, ◌||◌, if◌then◌else◌, Option, none, some, List, [], ◌∷◌, String,
  str_eq, any, is_none,
}
use swimming_in_zurich.Text.{decimal, str_lt}
use swimming_in_zurich.Dates.{Date}
use swimming_in_zurich.Closure.{ClosureCode, StrParams}
use swimming_in_zurich.Calendar.{ZurichCalendar}
use swimming_in_zurich.Errors.{Float}
use swimming_in_zurich.Schedule.{
  Weather, any_weather, fair_only, DatePrecision, AnnualWindow, DaySchedule, open_day,
  open_unscheduled_day, closed_day,
}
use swimming_in_zurich.Models.{GeoPoint, Facility, OperatingSeason}
use swimming_in_zurich.Catalog.{
  RosterEntry, ScheduleFreshness, scraped, awaiting_scrape, no_source, has_rules,
}
use swimming_in_zurich.Resolver.{resolve_hours}
use swimming_in_zurich.Query.Types.{
  Platform, FloatOps, haversine_km, SwimQuery, StatusCode, FacilityStatus, closed_reason,
  open_unscheduled,
}

distance_between : FloatOps → Option GeoPoint → Option GeoPoint → Option Float
distance_between f (some near) (some geo) = haversine_km f near geo
distance_between f _ _ = none

raises : FloatOps → Option GeoPoint → Option GeoPoint → Bool
raises f (some near) (some geo) = is_none (haversine_km f near geo)
raises f _ _ = false

-- Whether `_distance_km` raises a ValueError, as `math` does for some coordinates.
unfoldable pub distance_raises : Platform → SwimQuery → Option GeoPoint → Bool
unfolding raises
distance_raises w query geo = raises w.floats query.near geo

-- What `_distance_km` returns if it does not raise.
unfoldable pub distance_to : Platform → SwimQuery → Option GeoPoint → Option Float
unfolding distance_between
distance_to w query geo = distance_between w.floats query.near geo

abbrev pub or_infinity : FloatOps → Option Float → Float
or_infinity f none = f.infinity
or_infinity f (some x) = x

weather_value : Weather → String
weather_value any_weather = "any"
weather_value fair_only = "fair_only"

precision_value : DatePrecision → String
precision_value DatePrecision.day = "day"
precision_value DatePrecision.month = "month"

-- The two parameters that only a window of day precision has.
day_params : AnnualWindow → DatePrecision → StrParams
day_params w DatePrecision.month = []
day_params w DatePrecision.day =
    ("season_start_day", decimal w.start.day) ∷ ("season_end_day", decimal w.end.day) ∷ []

season_params : AnnualWindow → Weather → StrParams
unfolding weather_value precision_value day_params
season_params w weather =
    ("weather", weather_value weather)
    ∷ ("season_start_month", decimal w.start.month)
    ∷ ("season_end_month", decimal w.end.month)
    ∷ ("season_precision", precision_value w.precision)
    ∷ day_params w w.precision

-- The status of a facility that is shut on the day.
abbrev pub closed_status : Facility → Option Float → ClosureCode → StrParams → FacilityStatus
closed_status facility distance code params = record {
  facility_id = facility.identity.facility_id;
  facility_name = facility.identity.name;
  status = "closed";
  code = closed_reason;
  closure = some code;
  params = params;
  distance_km = distance;
}

abbrev pub unscheduled_status :
    Facility → OperatingSeason → Option Float → StrParams → FacilityStatus
unscheduled_status facility season distance params = record {
  facility_id = facility.identity.facility_id;
  facility_name = facility.identity.name;
  status = "open_unscheduled";
  code = open_unscheduled;
  closure = none;
  params = params;
  distance_km = distance;
}

-- `_seasonal_status`
unfoldable pub seasonal_status :
    Facility → OperatingSeason → DaySchedule → Option Float → Option FacilityStatus
unfolding season_params
seasonal_status facility season (open_unscheduled_day weather) distance =
    some (unscheduled_status facility season distance (season_params season.window weather))
seasonal_status facility season (closed_day code params) distance =
    some (closed_status facility distance code params)
seasonal_status facility season (open_day _ _) distance = none

abbrev pub one : Option FacilityStatus → Option (List FacilityStatus)
one none = none
one (some s) = some (s ∷ [])

unfoldable pub seasonal_for :
    Platform
    → Facility
    → Date
    → ZurichCalendar
    → Option Float
    → Option OperatingSeason
    → Option (List FacilityStatus)
seasonal_for w facility day calendar distance none = some []
seasonal_for w facility day calendar distance (some season) =
    if any has_rules facility.basins
    then some []
    else one (
        seasonal_status facility season (resolve_hours w.casefold facility [] [] day calendar)
          distance)

-- `_seasonal_status_for`: no status or one.
unfoldable pub seasonal_status_for :
    Platform → Facility → Date → ZurichCalendar → Option Float → Option (List FacilityStatus)
seasonal_status_for w facility day calendar distance =
    seasonal_for w facility day calendar distance facility.operating_season

-- A facility that answers for itself: it has a rule or an operating season.
abbrev pub is_scheduled : Facility → Bool
is_scheduled f = any has_rules f.basins || not (is_none f.operating_season)

-- `row.entry.pool_id in scheduled_ids`
unfoldable pub has_schedule : List Facility → String → Bool
has_schedule facilities pool_id =
    any (λ f. is_scheduled f && str_eq pool_id f.identity.facility_id) facilities

abbrev pub is_scraped : ScheduleFreshness → Bool
is_scraped scraped = true
is_scraped _ = false

-- `row.freshness.value` and `_FRESHNESS_STATUS_CODE[row.freshness]`
abbrev pub freshness_status : ScheduleFreshness → Option (String × StatusCode)
freshness_status awaiting_scrape = some ("awaiting_scrape", StatusCode.awaiting_scrape)
freshness_status no_source = some ("no_source", StatusCode.no_source)
freshness_status scraped = none

abbrev pub roster_status : RosterEntry → Option Float → String × StatusCode → FacilityStatus
roster_status row distance (status, code) = record {
  facility_id = row.entry.pool_id;
  facility_name = row.entry.name;
  status = status;
  code = code;
  closure = none;
  params = [];
  distance_km = distance;
}

-- What follows a distance, unless that raised.
abbrev pub unless_raised : {A : Type 0} → Bool → Option A → Option A
unless_raised true o = none
unless_raised false o = o

abbrev pub cons_status :
    RosterEntry
    → Option Float
    → Option (String × StatusCode)
    → Option (List FacilityStatus)
    → Option (List FacilityStatus)
cons_status row distance (some c) (some rest) = some (roster_status row distance c ∷ rest)
cons_status row distance _ _ = none

-- `_schedule_less_statuses`
unfoldable pub schedule_less_statuses :
    Platform → SwimQuery → List Facility → List RosterEntry → Option (List FacilityStatus)
schedule_less_statuses w query facilities [] = some []
schedule_less_statuses w query facilities (row ∷ rows) =
    let rest = schedule_less_statuses w query facilities rows in
    if not (has_schedule facilities row.entry.pool_id) && not (is_scraped row.freshness)
    then unless_raised (distance_raises w query row.entry.geo)
        (cons_status row (distance_to w query row.entry.geo) (freshness_status row.freshness) rest)
    else rest

-- Whether the key `_status_order` of one status is below the other's.
unfoldable pub status_before : FloatOps → FacilityStatus → FacilityStatus → Bool
unfolding str_lt
status_before f a b =
    let da = or_infinity f a.distance_km in
    let db = or_infinity f b.distance_km in
    if f.eq da db then str_lt a.facility_name b.facility_name else f.lt da db
