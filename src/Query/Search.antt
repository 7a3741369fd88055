-- ===== src/Query/Search.antt =====
-- src/swimzh/domain/query.py: `find_swim_options`, from the query to the sorted answer. The loops are in
-- Visit.
use swimming_in_zurich.Query.Visit.{Request, Found, visit_facilities}
use swimming_in_zurich.Base.{
  ℕ, ◌+◌, ◌*◌, ◌-◌, Bool, true, false, not, ltb, leb, ◌==◌, if◌then◌else◌, Option, none, some, List,
  [], ◌∷◌, ◌++◌, String, nonempty, is_none,
}
use swimming_in_zurich.Base.Sort.{sort}
use swimming_in_zurich.Text.{decimal, join, str_lt, str_le}
use swimming_in_zurich.Dates.{Date, isoformat, to_ordinal}
use swimming_in_zurich.Calendar.{ZurichCalendar, covers}
use swimming_in_zurich.Errors.{Datetime}
use swimming_in_zurich.Models.{Facility}
use swimming_in_zurich.Catalog.{RosterEntry}
use swimming_in_zurich.Query.Types.{
  Platform, FloatOps, SwimQuery, SwimOption, OccupancyProvider, FacilityStatus, QueryResult,
}
use swimming_in_zurich.Query.Statuses.{or_infinity, schedule_less_statuses, status_before}

-- Whether the key `_option_order` of one option is below the other's.
unfoldable pub option_before : FloatOps → SwimOption → SwimOption → Bool
option_before f a b =
    let da = or_infinity f a.distance_km in
    let db = or_infinity f b.distance_km in
    if not (f.eq da db)
    then f.lt da db
    else if not (a.session.time.start == b.session.time.start)
    then ltb a.session.time.start b.session.time.start
    else str_lt a.facility_name b.facility_name

-- The stable sorts keep an element in front of those that are not below it.
abbrev pub option_le : FloatOps → SwimOption → SwimOption → Bool
option_le f a b = not (option_before f b a)

abbrev pub status_le : FloatOps → FacilityStatus → FacilityStatus → Bool
status_le f a b = not (status_before f b a)

unfoldable pub calendar_warning : Date → String
calendar_warning d = join "" (
    "calendar data not available for "
    ∷ decimal d.year
    ∷ "; holiday-dependent schedules may be inaccurate"
    ∷ [])

unfoldable pub holiday_warning : Date → List String → String
holiday_warning d names = join "" (
    isoformat d
    ∷ " is a public holiday and these pools do not publish their holiday hours; the times shown are "
    ∷ "their usual weekday hours and are unconfirmed: "
    ∷ join ", " (sort str_le names)
    ∷ [])

unfoldable pub warnings_of : Request → List String → List String
warnings_of r unverified =
    (if covers r.calendar r.day then [] else calendar_warning r.day ∷ [])
    ++ (if nonempty unverified then holiday_warning r.day unverified ∷ [] else [])

abbrev pub result_of : Request → Found → List FacilityStatus → QueryResult
result_of r found schedule_less = record {
  options = sort (option_le r.platform.floats) found.options;
  statuses = sort (status_le r.platform.floats) (found.statuses ++ schedule_less);
  warnings = warnings_of r found.unverified;
  notices = found.notices;
}

abbrev pub answer : Request → Option Found → Option (List FacilityStatus) → Option QueryResult
answer r (some found) (some schedule_less) = some (result_of r found schedule_less)
answer r _ _ = none

abbrev pub nothing_found : Found
nothing_found = record { options = []; statuses = []; notices = []; unverified = [] }

unfoldable pub run_query : Request → List Facility → List RosterEntry → Option QueryResult
run_query r facilities roster =
    answer r (visit_facilities r facilities nothing_found)
      (schedule_less_statuses r.platform r.query facilities roster)

-- `query.at` in Zurich time, if it is aware.
abbrev local : Platform → Datetime → Datetime
local w at = if is_none at.instant then at else w.to_zurich at

-- The microseconds of the date and time, which the difference of two datetimes of one zone counts.
abbrev wall_clock : Datetime → ℕ
wall_clock at = to_ordinal at.date * 86400000000 + at.time

-- Thirty minutes, in microseconds.
abbrev now_tolerance : ℕ
now_tolerance = 1800000000

-- `abs(at_aware - now) <= _NOW_TOLERANCE`, on the Zurich clock.
unfoldable pub is_about : ℕ → ℕ → Bool
is_about at now = leb (if ltb at now then now - at else at - now) now_tolerance

abbrev wanted : Bool → Option OccupancyProvider → Option OccupancyProvider
wanted true provider = provider
wanted false provider = none

unfoldable pub request_of :
    Platform → SwimQuery → ZurichCalendar → ℕ → Option OccupancyProvider → Request
unfolding to_ordinal
request_of w query calendar now occupancy =
    let at = local w query.at in
    record {
      platform = w;
      query = query;
      calendar = calendar;
      day = at.date;
      now_time = at.time;
      now = now;
      occupancy = wanted (is_about (wall_clock at) (wall_clock (w.zurich_clock now))) occupancy;
    }

-- `now` is the instant that the clock shows.
unfoldable pub find_swim_options :
    Platform
    → SwimQuery
    → List Facility
    → ZurichCalendar
    → List RosterEntry
    → Option OccupancyProvider
    → ℕ
    → Option QueryResult
find_swim_options w query facilities calendar roster occupancy now =
    run_query (request_of w query calendar now occupancy) facilities roster
