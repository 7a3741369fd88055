-- ===== src/Query/Types.antt =====
-- src/swimzh/domain/query.py: its types, with the distance of src/swimzh/domain/geo.py. What the interpreter, the clock and the time-zone data do is a parameter.
use swimming_in_zurich.Base.{ℕ, Bool, false, ltb, if◌then◌else◌, Option, some, List, String, keep}
use swimming_in_zurich.Base.Maybe.{◌>>=◌}
use swimming_in_zurich.Person.{Person}
use swimming_in_zurich.Access.{EligibilityResult}
use swimming_in_zurich.Closure.{ClosureCode, StrParams}
pub use swimming_in_zurich.Errors.{Result, ok, err}
use swimming_in_zurich.Errors.{Float, Decimal, Datetime, ProviderError}
use swimming_in_zurich.Errors.Report.{Formats}
use swimming_in_zurich.Schedule.{ResolvedSession}
use swimming_in_zurich.Models.{GeoPoint, PoolKind, BasinKind, Provenance, PriceEntry}
use swimming_in_zurich.Lanes.{LaneAvailability, LaneAvailabilityTimeline}
use swimming_in_zurich.Panel.{LaneDayView, PublicWindow}

-- The floating-point operations that domain/geo.py and the sort keys use; `none` is the ValueError
-- of a function of `math` outside its domain.
pub record FloatOps : Type 0 where
  pub radians : Float → Float
  pub sin : Float → Option Float
  pub cos : Float → Option Float
  pub asin : Float → Option Float
  pub sqrt : Float → Option Float
  pub add : Float → Float → Float
  pub sub : Float → Float → Float
  pub mul : Float → Float → Float
  pub div : Float → Float → Float
  pub two : Float
  pub earth_radius_km : Float
  pub infinity : Float
  pub lt : Float → Float → Bool
  pub eq : Float → Float → Bool

unfoldable pub haversine_km : FloatOps → GeoPoint → GeoPoint → Option Float
haversine_km f a b =
    let lat1 = f.radians a.lat in
    let lon1 = f.radians a.lon in
    let lat2 = f.radians b.lat in
    let lon2 = f.radians b.lon in
    let dlat = f.sub lat2 lat1 in
    let dlon = f.sub lon2 lon1 in
    (do
      half_lat ← f.sin (f.div dlat f.two)
      cos_lat1 ← f.cos lat1
      cos_lat2 ← f.cos lat2
      half_lon ← f.sin (f.div dlon f.two)
      root ← f.sqrt (
          f.add (f.mul half_lat half_lat)
            (f.mul (f.mul cos_lat1 cos_lat2) (f.mul half_lon half_lon)))
      arc ← f.asin root
      some (f.mul (f.mul f.two f.earth_radius_km) arc))

-- A signed number of microseconds.
pub record Timedelta : Type 0 where
  pub negative : Bool
  pub micros : ℕ

-- `self > limit`
unfoldable pub exceeds : Timedelta → ℕ → Bool
exceeds d limit = if d.negative then false else ltb limit d.micros

pub record SwimQuery : Type 0 where
  pub person : Person
  pub at : Datetime
  pub near : Option GeoPoint
  pub radius_km : Option Float

-- A reading; `measured_at` is the instant of an aware datetime (a naive one is refused).
pub record Occupancy : Type 0 where
  pub facility_id : String
  pub measured_at : ℕ
  pub percent_full : Option Float
  pub people : Option ℕ
  pub capacity : Option ℕ
  pub source : String

pub data OccupancyResult : Type 0 where
  live_occupancy : (reading : Occupancy) (age : Timedelta) → OccupancyResult
  occupancy_unavailable : (reason : String) → OccupancyResult

abbrev pub OccupancyProvider : Type 0
OccupancyProvider = List String → Result Occupancy ProviderError

pub record TempReading : Type 0 where
  pub measured_at : ℕ
  pub celsius : Option Decimal
  pub is_open : Option Bool
  pub source : String

pub data TempUnavailableCode : Type 0 where
  no_key provider_error not_configured : TempUnavailableCode

pub data TempResult : Type 0 where
  live_temp : (reading : TempReading) (age : Timedelta) → TempResult
  temp_unavailable : (reason : String) (code : TempUnavailableCode) → TempResult

abbrev pub TemperatureProvider : Type 0
TemperatureProvider = String → Result TempReading ProviderError

pub record SwimOption : Type 0 where
  pub facility_id : String
  pub facility_name : String
  pub facility_kind : PoolKind
  pub basin_id : String
  pub basin_name : String
  pub basin_kind : BasinKind
  pub basin_length_m : Option Decimal
  pub lanes : Option ℕ
  pub water_temp_c : Option Decimal
  pub session : ResolvedSession
  pub eligibility : EligibilityResult
  pub open_at_query_time : Bool
  pub price : Option PriceEntry
  pub distance_km : Option Float
  pub provenance : Provenance
  pub live_occupancy : Option OccupancyResult
  pub lane_availability : Option LaneAvailability
  pub lane_timeline : Option LaneAvailabilityTimeline
  pub lane_day_view : Option LaneDayView
  pub lane_best_public : Option PublicWindow

pub data StatusCode : Type 0 where
  closed_reason awaiting_scrape no_source open_unscheduled : StatusCode

pub record FacilityStatus : Type 0 where
  pub facility_id : String
  pub facility_name : String
  pub status : String
  pub code : StatusCode
  pub closure : Option ClosureCode
  pub params : StrParams
  pub distance_km : Option Float

pub record FacilityNotice : Type 0 where
  pub facility_id : String
  pub facility_name : String
  pub text : String

pub record QueryResult : Type 0 where
  pub options : List SwimOption
  pub statuses : List FacilityStatus
  pub warnings : List String
  pub notices : List FacilityNotice

-- `QueryResult.eligible_options`
unfoldable pub eligible_options : QueryResult → List SwimOption
eligible_options r = keep (λ o. o.eligibility.allowed) r.options

-- What the code takes from outside: `str.casefold`, floating point, the printing of floats, and
-- Europe/Zurich. `to_zurich` is `astimezone(_ZURICH)`, and `zurich_clock` the Zurich
-- clock at an instant in microseconds, `datetime.now(_ZURICH)`. `minus` is the difference of that
-- clock and the time of a reading: of the wall clocks, if the reading's is of the same zone.
pub record Platform : Type 0 where
  pub casefold : String → String
  pub floats : FloatOps
  pub formats : Formats
  pub to_zurich : Datetime → Datetime
  pub zurich_clock : ℕ → Datetime
  pub minus : ℕ → ℕ → Timedelta
