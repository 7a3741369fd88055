-- ===== src/Boundary/Dto.antt =====
-- src/swimzh/boundary/curated_dto.py: the fields of the data transfer objects, which a stored document
-- holds. A Literal type is a string. The discriminated unions are data types; the classes of the
-- arms are their constructors, so that the `type` tag is the constructor.
use swimming_in_zurich.Base.{ℕ, Bool, Option, List, String}
use swimming_in_zurich.Dates.{Date, Time}
use swimming_in_zurich.Errors.{Integer, Float, Decimal, Datetime, JsonValue}

pub data AccessDto : Type 0 where
  public : AccessDto
  lane_swim : (note : String) → AccessDto
  family : (note : String) → AccessDto
  women_only : (note : String) → AccessDto
  seniors_only : (min_age : ℕ) → AccessDto
  school_reserved : AccessDto
  club_reserved : (club : String) → AccessDto
  adults_only : (min_age : ℕ) (note : String) → AccessDto
  girls_only : AccessDto
  gender_diverse : (min_age : ℕ) → AccessDto
  accompanied_children : AccessDto

pub record SeasonDto : Type 0 where
  pub start_month : ℕ
  pub start_day : ℕ
  pub end_month : ℕ
  pub end_day : ℕ
  pub precision : String

pub record OperatingSeasonDto : Type 0 where
  pub window : SeasonDto
  pub weather : String

pub record RuleDto : Type 0 where
  pub weekdays : List String
  pub start : Time
  pub end : Time
  pub access : AccessDto
  pub scope : String
  pub source_text : String
  pub season : Option SeasonDto
  pub weather : String

pub record ResolvedSessionDto : Type 0 where
  pub start : Time
  pub end : Time
  pub access : AccessDto
  pub weather : String

pub record ExceptionDto : Type 0 where
  pub date : Date
  pub closed : Bool
  pub reason : String
  pub sessions : List ResolvedSessionDto

pub record ClosureDto : Type 0 where
  pub start : Date
  pub end : Date
  pub reason : String

pub record DimensionsDto : Type 0 where
  pub length_m : Decimal
  pub width_m : Option Decimal

pub data ProviderErrorDto : Type 0 where
  timeout : (url : String) (after_s : Float) → ProviderErrorDto
  connection_failed : (url detail : String) → ProviderErrorDto
  http_status : (url : String) (status : ℕ) (body_snippet : String) → ProviderErrorDto
  rate_limited : (url : String) (retry_after_s : Option Float) → ProviderErrorDto
  decode_error : (source detail : String) → ProviderErrorDto
  parse_error : (source detail raw_snippet : String) → ProviderErrorDto
  schema_mismatch : (source detail : String) → ProviderErrorDto
  too_large : (url : String) (limit_bytes : ℕ) → ProviderErrorDto
  redirect : (url location : String) (count : Integer) → ProviderErrorDto
  provider_specific : (provider : String) (detail : JsonValue) → ProviderErrorDto

pub record LanePlanSourceDto : Type 0 where
  pub url : String
  pub section : Option String

pub record LanePlanUnavailableDto : Type 0 where
  pub source_url : String
  pub cause : ProviderErrorDto
  pub observed_at : Datetime
  pub section : Option String

pub record LaneReservationDto : Type 0 where
  pub weekdays : List String
  pub start : Time
  pub end : Time
  pub lanes : List ℕ
  pub access : AccessDto
  pub section : Option String

pub record PlanCoverageDto : Type 0 where
  pub confidence : String
  pub cells_total : ℕ
  pub cells_resolved : ℕ
  pub unresolved_lanes : List ℕ

-- `lanes_by_weekday` is a dict, as its items.
pub record LanePlanDto : Type 0 where
  pub lane_count : ℕ
  pub reservations : List LaneReservationDto
  pub valid_from : Option Date
  pub coverage : PlanCoverageDto
  pub fetched_at : Option Datetime
  pub lanes_by_weekday : Option (List (String × ℕ))

-- `LanePlanDTO | LanePlanUnavailableDTO | None`
pub data LaneOutcomeDto : Type 0 where
  no_plan : LaneOutcomeDto
  parsed : LanePlanDto → LaneOutcomeDto
  unavailable : LanePlanUnavailableDto → LaneOutcomeDto

pub record BasinDto : Type 0 where
  pub basin_id : String
  pub name : String
  pub rules : List RuleDto
  pub exceptions : List ExceptionDto
  pub kind : String
  pub dimensions : Option DimensionsDto
  pub lanes : Option ℕ
  pub nominal_temp_c : Option Decimal
  pub measured_temp_c : Option Decimal
  pub diving_platforms_m : List Decimal
  pub physical_source : String
  pub lane_plan_source : Option LanePlanSourceDto
  pub lane_plan : LaneOutcomeDto

pub record FeatureDto : Type 0 where
  pub kind : String
  pub name : String
  pub hours : List RuleDto
  pub surcharge_chf : Option Decimal
  pub temp_c : Option Decimal
  pub note : String

pub record LockerOptionDto : Type 0 where
  pub category : String
  pub fee_chf : Option Decimal
  pub deposit_chf : Option Decimal
  pub period : Option String
  pub mechanism : Option String
  pub raw : String

pub record RentalItemDto : Type 0 where
  pub kind : String
  pub fee_chf : Option Decimal
  pub fee_state : Option String
  pub deposit_chf : Option Decimal
  pub period : Option String
  pub raw : String

pub record PriceEntryDto : Type 0 where
  pub category : String
  pub amount_chf : Decimal
  pub display : String
  pub min_age : Option ℕ

pub record PriceTableDto : Type 0 where
  pub entries : List PriceEntryDto
  pub valid_as_of : Option Date
  pub source_url : Option String

pub record GeoDto : Type 0 where
  pub lat : Float
  pub lon : Float

pub record PublicHolidayDto : Type 0 where
  pub date : Date
  pub name : String

pub record SchoolHolidayDto : Type 0 where
  pub name : String
  pub start : Date
  pub end : Date

pub record CalendarDto : Type 0 where
  pub known_years : List ℕ
  pub public_holidays : List PublicHolidayDto
  pub school_holidays : List SchoolHolidayDto
