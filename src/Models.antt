-- ===== src/Models.antt =====
-- src/swimzh/domain/models.py and the small modules that it is built of (geo, lockers, admission,
-- pricing, rentals): facility-level models. A float is its 64-bit pattern and a Decimal its sign,
-- digits and number of places; both are carried, and computed with only through parameters.
use swimming_in_zurich.Base.{ℕ, Bool, true, ◌&&◌, Option, none, some, List, String}
use swimming_in_zurich.Dates.{Date, date_le}
use swimming_in_zurich.Errors.{Float, Decimal, Datetime, ProviderError}
use swimming_in_zurich.Access.{SessionAccess}
use swimming_in_zurich.Schedule.{
  Weekday, TimeRange, ScheduleRule, ScheduleException, HolidayPolicy, AnnualWindow, Weather,
  ClosureRange,
}

-- domain/geo.py
pub record GeoPoint : Type 0 where
  pub lat : Float
  pub lon : Float

pub data PoolKind : Type 0 where
  indoor outdoor river lake school paddling thermal : PoolKind

pub record Provenance : Type 0 where
  pub source : String
  pub curated : Bool
  pub valid_as_of : Option Date
  pub fetched_at : Option Datetime

pub record PoolIdentity : Type 0 where
  pub facility_id : String
  pub name : String
  pub kind : PoolKind
  pub geo_sport_id : Option String
  pub crowdmonitor_keys : List String
  pub baditicker_poiid : Option String
  pub aliases : List String

pub record Notice : Type 0 where
  pub text : String
  pub active_from : Option Date
  pub active_to : Option Date

-- `self.active_from is None or day >= self.active_from`
abbrev starts_by : Option Date → Date → Bool
starts_by none day = true
starts_by (some from) day = date_le from day

abbrev ends_after : Option Date → Date → Bool
ends_after none day = true
ends_after (some to) day = date_le day to

unfoldable pub active_on : Notice → Date → Bool
unfolding date_le
active_on notice day = starts_by notice.active_from day && ends_after notice.active_to day

pub data BasinKind : Type 0 where
  lap non_swimmer diving vario teaching children outdoor other : BasinKind

pub data BasinSource : Type 0 where
  curated parsed_prose : BasinSource

pub record Dimensions : Type 0 where
  pub length_m : Decimal
  pub width_m : Option Decimal

pub record LanePlanSource : Type 0 where
  pub url : String
  pub section : Option String

-- domain/lane_plan.py: the stored plan.
pub data PlanConfidence : Type 0 where
  complete partial : PlanConfidence

pub record LaneReservation : Type 0 where
  pub weekdays : List Weekday
  pub time : TimeRange
  pub lanes : List ℕ
  pub access : SessionAccess
  pub section : Option String

pub record PlanCoverage : Type 0 where
  pub confidence : PlanConfidence
  pub cells_total : ℕ
  pub cells_resolved : ℕ
  pub unresolved_lanes : List ℕ

pub record LanePlan : Type 0 where
  pub lane_count : ℕ
  pub reservations : List LaneReservation
  pub valid_from : Option Date
  pub coverage : PlanCoverage
  pub fetched_at : Option Datetime
  pub lanes_by_weekday : Option (List (Weekday × ℕ))

pub record LanePlanUnavailable : Type 0 where
  pub source_url : String
  pub section : Option String
  pub cause : ProviderError
  pub observed_at : Datetime

-- `LanePlan | LanePlanUnavailable | None`
pub data LanePlanOutcome : Type 0 where
  no_plan : LanePlanOutcome
  parsed : LanePlan → LanePlanOutcome
  unavailable : LanePlanUnavailable → LanePlanOutcome

pub record Basin : Type 0 where
  pub basin_id : String
  pub name : String
  pub rules : List ScheduleRule
  pub exceptions : List ScheduleException
  pub kind : BasinKind
  pub dimensions : Option Dimensions
  pub lanes : Option ℕ
  pub nominal_temp_c : Option Decimal
  pub measured_temp_c : Option Decimal
  pub diving_platforms_m : List Decimal
  pub physical_source : BasinSource
  pub lane_plan_source : Option LanePlanSource
  pub lane_plan : LanePlanOutcome

pub data FeatureKind : Type 0 where
  sauna steam_bath wellness slide hot_tub terrace rest gastronomy : FeatureKind

pub record Feature : Type 0 where
  pub kind : FeatureKind
  pub name : String
  pub hours : List ScheduleRule
  pub surcharge_chf : Option Decimal
  pub temp_c : Option Decimal
  pub note : String

pub record OperatingSeason : Type 0 where
  pub window : AnnualWindow
  pub weather : Weather

-- domain/lockers.py
pub data LockerCategory : Type 0 where
  wardrobe valuables laundry : LockerCategory

pub data LockerMechanism : Type 0 where
  coin key chip wristband other : LockerMechanism

pub record LockerOption : Type 0 where
  pub category : LockerCategory
  pub fee_chf : Option Decimal
  pub deposit_chf : Option Decimal
  pub period : Option String
  pub mechanism : Option LockerMechanism
  pub raw : String

-- domain/rentals.py
pub data RentalKind : Type 0 where
  towel swimwear goggles cabin sunlounger parasol other : RentalKind

pub data RentalFee : Type 0 where
  priced : Decimal → RentalFee
  gratis unstated : RentalFee

pub record RentalItem : Type 0 where
  pub kind : RentalKind
  pub fee : RentalFee
  pub deposit_chf : Option Decimal
  pub period : Option String
  pub raw : String

-- domain/pricing.py: the stored tariff.
pub data PriceCategory : Type 0 where
  child youth adult : PriceCategory

pub record PriceEntry : Type 0 where
  pub category : PriceCategory
  pub amount_chf : Decimal
  pub display : String
  pub min_age : Option ℕ

pub record PriceTable : Type 0 where
  pub entries : List PriceEntry
  pub valid_as_of : Option Date
  pub source_url : Option String

-- domain/admission.py
pub data Admission : Type 0 where
  free : Admission
  tariff : PriceTable → Admission
  unknown : Admission

pub record Facility : Type 0 where
  pub identity : PoolIdentity
  pub address : String
  pub provenance : Provenance
  pub basins : List Basin
  pub geo : Option GeoPoint
  pub closures : List ClosureRange
  pub public_holiday_policy : Option HolidayPolicy
  pub operating_season : Option OperatingSeason
  pub admission : Admission
  pub notices : List Notice
  pub features : List Feature
  pub lockers : List LockerOption
  pub rentals : List RentalItem
  -- Seconds.
  pub last_admission_before : Option ℕ
