-- ===== src/Tests/Data.antt =====
-- A small city: two pools, a calendar, a lane plan.
use swimming_in_zurich.Base.{ℕ, true, Option, none, some, List, [], ◌∷◌, String}
use swimming_in_zurich.Dates.{Date, date, clock}
use swimming_in_zurich.Access.{SessionAccess, public_swim, women_only, club_reserved}
use swimming_in_zurich.Closure.{maintenance, special}
use swimming_in_zurich.Calendar.{ZurichCalendar}
use swimming_in_zurich.Schedule.{
  Weekday, monday, tuesday, wednesday, thursday, friday, sunday, TimeRange, span, DayScope, always,
  school_term, AnnualWindow, DatePrecision, any_weather, fair_only, ScheduleRule, ScheduleException,
  ClosureRange,
}
use swimming_in_zurich.Models.{
  PoolIdentity, PoolKind, Basin, BasinKind, BasinSource, LanePlanOutcome, parsed, LaneReservation,
  LanePlan, PlanConfidence, Facility, OperatingSeason, unknown,
}

abbrev pub weekdays : List Weekday
weekdays = monday ∷ tuesday ∷ wednesday ∷ thursday ∷ friday ∷ []

abbrev pub rule : List Weekday → TimeRange → SessionAccess → DayScope → ScheduleRule
rule days time access scope = record {
  weekdays = days;
  time = time;
  access = access;
  scope = scope;
  source_text = "";
  season = none;
  weather = any_weather;
}

abbrev pub morning : TimeRange
morning = span (clock 6 0) (clock 8 0)

abbrev pub day_long : TimeRange
day_long = span (clock 9 0) (clock 22 0)

abbrev pub public_hours : ScheduleRule
public_hours = rule weekdays day_long public_swim always

abbrev pub club_hours : ScheduleRule
club_hours = rule weekdays morning (club_reserved "ASVZ") school_term

abbrev pub women_hours : ScheduleRule
women_hours = rule (sunday ∷ []) day_long (women_only "") always

-- Listed in the order of the page, which is not the order of the day.
abbrev pub city_rules : List ScheduleRule
city_rules = public_hours ∷ club_hours ∷ women_hours ∷ []

abbrev pub calendar : ZurichCalendar
calendar = record {
  public = (date 2026 5 1, "Tag der Arbeit") ∷ [];
  school = record { name = "Sommerferien"; start = date 2026 7 13; end = date 2026 8 14 } ∷ [];
  known_years = 2026 ∷ [];
}

abbrev pub hold : List Weekday → TimeRange → List ℕ → SessionAccess → LaneReservation
hold days time lanes access = record {
  weekdays = days;
  time = time;
  lanes = lanes;
  access = access;
  section = none;
}

-- Four lanes until 18:00, then two beside a club.
abbrev pub plan : LanePlan
plan = record {
  lane_count = 4;
  reservations =
      hold weekdays (span (clock 18 0) (clock 22 0)) (1 ∷ 2 ∷ []) (club_reserved "ASVZ")
      ∷ hold weekdays (span (clock 18 0) (clock 21 0)) (3 ∷ 4 ∷ []) public_swim
      ∷ hold weekdays (span (clock 6 0) (clock 18 0)) (1 ∷ 2 ∷ 3 ∷ 4 ∷ []) public_swim
      ∷ [];
  valid_from = none;
  coverage = record {
    confidence = PlanConfidence.complete;
    cells_total = 4;
    cells_resolved = 4;
    unresolved_lanes = [];
  };
  fetched_at = none;
  lanes_by_weekday = none;
}

abbrev pub identity : String → String → PoolKind → PoolIdentity
identity key name kind = record {
  facility_id = key;
  name = name;
  kind = kind;
  geo_sport_id = none;
  crowdmonitor_keys = [];
  baditicker_poiid = none;
  aliases = [];
}

abbrev pub basin : List ScheduleRule → List ScheduleException → LanePlanOutcome → Basin
basin rules exceptions outcome = record {
  basin_id = "b1";
  name = "Schwimmerbecken";
  rules = rules;
  exceptions = exceptions;
  kind = BasinKind.lap;
  dimensions = none;
  lanes = some 4;
  nominal_temp_c = none;
  measured_temp_c = none;
  diving_platforms_m = [];
  physical_source = BasinSource.curated;
  lane_plan_source = none;
  lane_plan = outcome;
}

abbrev pub revision : ClosureRange
revision = record {
  start = date 2026 8 3;
  end = date 2026 8 16;
  reason = "Revision";
  code = maintenance;
  params = [];
}

-- Shut on one day.
abbrev pub gala : ScheduleException
gala = record {
  date = date 2026 3 3;
  closed = true;
  reason = "";
  code = special;
  params = [];
  sessions = [];
}

abbrev pub facility :
    PoolIdentity → List Basin → List ClosureRange → Option OperatingSeason → Facility
facility who basins closures season = record {
  identity = who;
  address = "";
  provenance = record { source = "curated"; curated = true; valid_as_of = none; fetched_at = none };
  basins = basins;
  geo = none;
  closures = closures;
  public_holiday_policy = none;
  operating_season = season;
  admission = unknown;
  notices = [];
  features = [];
  lockers = [];
  rentals = [];
  last_admission_before = none;
}

abbrev pub city_basin : Basin
city_basin = basin city_rules (gala ∷ []) (parsed plan)

abbrev pub city : Facility
city =
    facility (identity "hallenbad-city" "Hallenbad City" PoolKind.indoor) (city_basin ∷ [])
      (revision ∷ []) none

abbrev pub summer : AnnualWindow
summer = record {
  start = record { month = 5; day = 1 };
  end = record { month = 9; day = 30 };
  precision = DatePrecision.month;
}

abbrev pub paddling_season : OperatingSeason
paddling_season = record { window = summer; weather = fair_only }

abbrev pub paddling : Facility
paddling =
    facility (identity "planschbecken-a" "Planschbecken A" PoolKind.paddling) [] []
      (some paddling_season)

-- No letter of the samples changes under it.
abbrev pub same_case : String → String
same_case s = s

abbrev pub tuesday_in_term : Date
tuesday_in_term = date 2026 3 10
