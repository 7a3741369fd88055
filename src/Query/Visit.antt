-- ===== src/Query/Visit.antt =====
-- src/swimzh/domain/query.py: the loops of `find_swim_options` over the facilities and their basins,
-- as functions over the lists that they fill; `none` is an exception that leaves the function.
use swimming_in_zurich.Base.{
  ℕ, Bool, false, ◌||◌, if◌then◌else◌, Option, none, some, List, [], ◌∷◌, ◌++◌, String, str_eq,
  keep, any, map, nonempty,
}
use swimming_in_zurich.Dates.{Date, Time}
use swimming_in_zurich.Person.{Person}
use swimming_in_zurich.Access.{eligibility}
use swimming_in_zurich.Closure.{ClosureCode, StrParams}
use swimming_in_zurich.Calendar.{ZurichCalendar}
use swimming_in_zurich.Errors.{Float, Decimal}
use swimming_in_zurich.Schedule.{
  Weekday, weekday_on, ResolvedSession, contains, DaySchedule, open_day, open_unscheduled_day,
  closed_day,
}
use swimming_in_zurich.Models.{
  Facility, Basin, Dimensions, LanePlanOutcome, no_plan, parsed, unavailable, Notice, active_on,
  Admission, free, tariff, unknown, PriceEntry,
}
use swimming_in_zurich.Lanes.{
  LaneAvailability, LaneAvailabilityTimeline, lane_availability_at, lane_availability_timeline,
}
use swimming_in_zurich.Panel.{LaneDayView, PublicWindow, lane_day_view, best_public_time}
use swimming_in_zurich.Pricing.{price_for}
use swimming_in_zurich.Resolver.{resolve_basin}
use swimming_in_zurich.Query.Types.{
  Platform, FloatOps, SwimQuery, SwimOption, OccupancyResult, OccupancyProvider, FacilityStatus,
  FacilityNotice,
}
use swimming_in_zurich.Query.Live.{read_occupancy}
use swimming_in_zurich.Query.Statuses.{
  distance_to, distance_raises, unless_raised, closed_status, seasonal_status_for,
}

-- `_price_of`
unfoldable pub price_of : Admission → Option ℕ → Option PriceEntry
price_of (tariff table) age = price_for table age
price_of free age = none
price_of unknown age = none

-- What a parsed plan adds to an option; a missing or failed plan adds nothing.
pub record LaneFacts : Type 0 where
  pub availability : Option LaneAvailability
  pub timeline : Option LaneAvailabilityTimeline
  pub day_view : Option LaneDayView
  pub best_public : Option PublicWindow

abbrev no_facts : LaneFacts
no_facts = record { availability = none; timeline = none; day_view = none; best_public = none }

unfoldable pub lane_facts : LanePlanOutcome → Weekday → Time → ResolvedSession → LaneFacts
lane_facts (parsed plan) weekday t session = record {
  availability = some (lane_availability_at plan weekday t);
  timeline = some (lane_availability_timeline plan weekday session.time);
  day_view = some (lane_day_view plan weekday);
  best_public = best_public_time plan weekday (some session.time);
}
lane_facts no_plan weekday t session = no_facts
lane_facts (unavailable _) weekday t session = no_facts

abbrev length_of : Option Dimensions → Option Decimal
length_of none = none
length_of (some d) = some d.length_m

-- The moment of the lane split: the queried one clamped into the session.
abbrev pub moment : ResolvedSession → Time → Time
moment session now_time = if contains session.time now_time then now_time else session.time.start

-- `_session_option`
unfoldable pub session_option :
    Facility
    → Basin
    → ResolvedSession
    → Date
    → Time
    → Option PriceEntry
    → Option Float
    → Option OccupancyResult
    → Person
    → SwimOption
session_option facility basin session day now_time price distance live person =
    let facts = lane_facts basin.lane_plan (weekday_on day) (moment session now_time) session in
    record {
      facility_id = facility.identity.facility_id;
      facility_name = facility.identity.name;
      facility_kind = facility.identity.kind;
      basin_id = basin.basin_id;
      basin_name = basin.name;
      basin_kind = basin.kind;
      basin_length_m = length_of basin.dimensions;
      lanes = basin.lanes;
      water_temp_c = basin.nominal_temp_c;
      session = session;
      eligibility = eligibility person session.access;
      open_at_query_time = contains session.time now_time;
      price = price;
      distance_km = distance;
      provenance = facility.provenance;
      live_occupancy = live;
      lane_availability = facts.availability;
      lane_timeline = facts.timeline;
      lane_day_view = facts.day_view;
      lane_best_public = facts.best_public;
    }

-- What one query fixes for all facilities.
pub record Request : Type 0 where
  pub platform : Platform
  pub query : SwimQuery
  pub calendar : ZurichCalendar
  pub day : Date
  pub now_time : Time
  pub now : ℕ
  -- The provider, if occupancy is wanted: it is wired and the query is about now.
  pub occupancy : Option OccupancyProvider

-- The variables that the loop over the basins of a facility changes.
pub record Visit : Type 0 where
  pub options : List SwimOption
  pub unverified : Bool
  pub produced : Bool
  pub closed : Option (ClosureCode × StrParams)

unfoldable pub live_of : Request → Facility → Option OccupancyProvider → Option OccupancyResult
live_of r facility none = none
live_of r facility (some provider) =
    some (read_occupancy r.platform provider facility.identity r.now)

-- The option of a session of a basin.
unfoldable pub option_of : Request → Facility → Basin → ResolvedSession → SwimOption
option_of r facility basin session =
    session_option facility basin session r.day r.now_time
      (price_of facility.admission r.query.person.age) (distance_to r.platform r.query facility.geo)
      (live_of r facility r.occupancy) r.query.person

-- The `match` on a basin's schedule.
unfoldable pub take_schedule : Request → Facility → Basin → DaySchedule → Visit → Visit
take_schedule r facility basin (closed_day code params) v = record v {
  closed = some (code, params);
}
take_schedule r facility basin (open_day sessions unverified) v = record v {
  options = v.options ++ map (option_of r facility basin) sessions;
  unverified = v.unverified || unverified;
  produced = v.produced || nonempty sessions;
}
take_schedule r facility basin (open_unscheduled_day _) v = v

-- One round of the loop over the basins; a basin with no rules is passed over.
unfoldable pub visit_basin : Request → Facility → Basin → Visit → Visit
visit_basin r facility basin v =
    if nonempty basin.rules
    then take_schedule r facility basin
        (resolve_basin r.platform.casefold facility basin r.day r.calendar) v
    else v

unfoldable pub visit_basins : Request → Facility → List Basin → Visit → Visit
visit_basins r facility [] v = v
visit_basins r facility (basin ∷ basins) v =
    visit_basins r facility basins (visit_basin r facility basin v)

abbrev pub start_visit : Visit
start_visit = record { options = []; unverified = false; produced = false; closed = none }

-- The variables that the loop over the facilities changes.
pub record Found : Type 0 where
  pub options : List SwimOption
  pub statuses : List FacilityStatus
  pub notices : List FacilityNotice
  pub unverified : List String

beyond : FloatOps → Option Float → Option Float → Bool
beyond f (some radius) (some distance) = f.lt radius distance
beyond f _ _ = false

-- Whether the facility lies outside the radius.
unfoldable pub is_beyond : Request → Facility → Bool
unfolding beyond
is_beyond r facility =
    beyond r.platform.floats r.query.radius_km (distance_to r.platform r.query facility.geo)

abbrev notice_of : Facility → Notice → FacilityNotice
notice_of facility n = record {
  facility_id = facility.identity.facility_id;
  facility_name = facility.identity.name;
  text = n.text;
}

-- `set.add`
abbrev pub add_name : String → List String → List String
add_name name names = if any (str_eq name) names then names else name ∷ names

-- The closed status that a facility with no option gets.
abbrev pub closing :
    Request → Facility → Bool → Option (ClosureCode × StrParams) → List FacilityStatus
closing r facility false (some (code, params)) =
    closed_status facility (distance_to r.platform r.query facility.geo) code params ∷ []
closing r facility _ _ = []

abbrev pub record_visit : Request → Facility → Visit → List FacilityStatus → Found → Found
record_visit r facility v seasonal found = record {
  options = found.options ++ v.options;
  statuses = found.statuses ++ seasonal ++ closing r facility v.produced v.closed;
  notices =
      found.notices ++ map (notice_of facility) (keep (λ n. active_on n r.day) facility.notices);
  unverified =
      if v.unverified then add_name facility.identity.name found.unverified else found.unverified;
}

abbrev pub add_visit :
    Request → Facility → Visit → Option (List FacilityStatus) → Found → Option Found
add_visit r facility v none found = none
add_visit r facility v (some seasonal) found = some (record_visit r facility v seasonal found)

-- The body of the loop over the facilities.
unfoldable pub visit_facility : Request → Facility → Found → Option Found
visit_facility r facility found = unless_raised (distance_raises r.platform r.query facility.geo) (
    if is_beyond r facility
    then some found
    else add_visit r facility (visit_basins r facility facility.basins start_visit)
        (seasonal_status_for r.platform facility r.day r.calendar
          (distance_to r.platform r.query facility.geo))
        found)

abbrev pub after_visit : Option Found → (Found → Option Found) → Option Found
after_visit none next = none
after_visit (some found) next = next found

unfoldable pub visit_facilities : Request → List Facility → Found → Option Found
visit_facilities r [] found = some found
visit_facilities r (f ∷ fs) found = after_visit (visit_facility r f found) (visit_facilities r fs)
