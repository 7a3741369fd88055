-- ===== src/Boundary/Facilities.antt =====
-- src/swimzh/boundary/mapping.py: basins, features, lockers, rentals, tariffs and places, to their DTOs
-- and back.
pub mod RoundTrip
pub mod Invariant
use swimming_in_zurich.Base.{Option, none, some, List, [], ◌∷◌, String, str_eq, if◌then◌else◌, map}
use swimming_in_zurich.Base.Maybe.{◌>>=◌, if_given, if_given_try, traverse}
use swimming_in_zurich.Errors.{Decimal}
use swimming_in_zurich.Models.{
  GeoPoint, Basin, Feature, LockerOption, RentalKind, RentalFee, priced, gratis, unstated,
  RentalItem, PriceEntry, PriceTable,
}
use swimming_in_zurich.Boundary.FacilityTokens.{
  basin_kind_to, basin_kind_from, basin_source_to, basin_source_from, feature_kind_to,
  feature_kind_from, locker_category_to, locker_category_from, locker_mechanism_to,
  locker_mechanism_from, rental_kind_to, rental_kind_from, category_to, category_from,
}
use swimming_in_zurich.Boundary.Dto.{
  BasinDto, FeatureDto, LockerOptionDto, RentalItemDto, PriceEntryDto, PriceTableDto, GeoDto,
}
use swimming_in_zurich.Boundary.Schedules.{
  rule_from_dto, rule_to_dto, exception_from_dto, exception_to_dto,
}
use swimming_in_zurich.Boundary.Plans.{
  dimensions_from_dto, dimensions_to_dto, lane_plan_source_from_dto, lane_plan_source_to_dto,
  outcome_from_dto, outcome_to_dto,
}

unfoldable pub basin_from_dto : (String → String) → BasinDto → Option Basin
basin_from_dto casefold dto = do
  rules ← traverse rule_from_dto dto.rules
  exceptions ← traverse (exception_from_dto casefold) dto.exceptions
  kind ← basin_kind_from dto.kind
  physical_source ← basin_source_from dto.physical_source
  lane_plan ← outcome_from_dto dto.lane_plan
  some (record {
    basin_id = dto.basin_id;
    name = dto.name;
    rules = rules;
    exceptions = exceptions;
    kind = kind;
    dimensions = if_given dimensions_from_dto dto.dimensions;
    lanes = dto.lanes;
    nominal_temp_c = dto.nominal_temp_c;
    measured_temp_c = dto.measured_temp_c;
    diving_platforms_m = dto.diving_platforms_m;
    physical_source = physical_source;
    lane_plan_source = if_given lane_plan_source_from_dto dto.lane_plan_source;
    lane_plan = lane_plan;
  })

unfoldable pub basin_to_dto : Basin → BasinDto
basin_to_dto basin = record {
  basin_id = basin.basin_id;
  name = basin.name;
  rules = map rule_to_dto basin.rules;
  exceptions = map exception_to_dto basin.exceptions;
  kind = basin_kind_to basin.kind;
  dimensions = if_given dimensions_to_dto basin.dimensions;
  lanes = basin.lanes;
  nominal_temp_c = basin.nominal_temp_c;
  measured_temp_c = basin.measured_temp_c;
  diving_platforms_m = basin.diving_platforms_m;
  physical_source = basin_source_to basin.physical_source;
  lane_plan_source = if_given lane_plan_source_to_dto basin.lane_plan_source;
  lane_plan = outcome_to_dto basin.lane_plan;
}

unfoldable pub feature_from_dto : FeatureDto → Option Feature
feature_from_dto dto = do
  kind ← feature_kind_from dto.kind
  hours ← traverse rule_from_dto dto.hours
  some (record {
    kind = kind;
    name = dto.name;
    hours = hours;
    surcharge_chf = dto.surcharge_chf;
    temp_c = dto.temp_c;
    note = dto.note;
  })

unfoldable pub feature_to_dto : Feature → FeatureDto
feature_to_dto feature = record {
  kind = feature_kind_to feature.kind;
  name = feature.name;
  hours = map rule_to_dto feature.hours;
  surcharge_chf = feature.surcharge_chf;
  temp_c = feature.temp_c;
  note = feature.note;
}

unfoldable pub locker_from_dto : LockerOptionDto → Option LockerOption
locker_from_dto dto = do
  category ← locker_category_from dto.category
  mechanism ← if_given_try locker_mechanism_from dto.mechanism
  some (record {
    category = category;
    fee_chf = dto.fee_chf;
    deposit_chf = dto.deposit_chf;
    period = dto.period;
    mechanism = mechanism;
    raw = dto.raw;
  })

unfoldable pub locker_to_dto : LockerOption → LockerOptionDto
locker_to_dto locker = record {
  category = locker_category_to locker.category;
  fee_chf = locker.fee_chf;
  deposit_chf = locker.deposit_chf;
  period = locker.period;
  mechanism = if_given locker_mechanism_to locker.mechanism;
  raw = locker.raw;
}

-- `state == "gratis"`
abbrev pub is_state : String → Option String → RentalFee
is_state wanted none = unstated
is_state wanted (some state) = if str_eq state wanted then gratis else unstated

-- `_rental_fee_from_dto`
unfoldable pub rental_fee_from_dto : Option Decimal → Option String → RentalFee
rental_fee_from_dto (some amount) fee_state = priced amount
rental_fee_from_dto none fee_state = is_state "gratis" fee_state

-- `_rental_fee_to_dto`
unfoldable pub rental_fee_to_dto : RentalFee → Option Decimal × Option String
rental_fee_to_dto (priced amount) = (some amount, none)
rental_fee_to_dto gratis = (none, some "gratis")
rental_fee_to_dto unstated = (none, none)

unfoldable pub rental_from_dto : RentalItemDto → Option RentalItem
rental_from_dto dto = do
  kind ← rental_kind_from dto.kind
  some (record {
    kind = kind;
    fee = rental_fee_from_dto dto.fee_chf dto.fee_state;
    deposit_chf = dto.deposit_chf;
    period = dto.period;
    raw = dto.raw;
  })

unfoldable pub rental_to_dto : RentalItem → RentalItemDto
rental_to_dto rental =
    let (fee_chf, fee_state) = rental_fee_to_dto rental.fee in
    record {
      kind = rental_kind_to rental.kind;
      fee_chf = fee_chf;
      fee_state = fee_state;
      deposit_chf = rental.deposit_chf;
      period = rental.period;
      raw = rental.raw;
    }

-- An entry of `price_table_from_dto`.
unfoldable pub price_entry_from_dto : PriceEntryDto → Option PriceEntry
price_entry_from_dto e = do
  category ← category_from e.category
  some (record {
    category = category;
    amount_chf = e.amount_chf;
    display = e.display;
    min_age = e.min_age;
  })

unfoldable pub price_entry_to_dto : PriceEntry → PriceEntryDto
price_entry_to_dto e = record {
  category = category_to e.category;
  amount_chf = e.amount_chf;
  display = e.display;
  min_age = e.min_age;
}

unfoldable pub price_table_from_dto : PriceTableDto → Option PriceTable
price_table_from_dto dto = do
  entries ← traverse price_entry_from_dto dto.entries
  some (record { entries = entries; valid_as_of = dto.valid_as_of; source_url = dto.source_url })

unfoldable pub price_table_to_dto : PriceTable → PriceTableDto
price_table_to_dto table = record {
  entries = map price_entry_to_dto table.entries;
  valid_as_of = table.valid_as_of;
  source_url = table.source_url;
}

unfoldable pub geo_from_dto : GeoDto → GeoPoint
geo_from_dto dto = record { lat = dto.lat; lon = dto.lon }

unfoldable pub geo_to_dto : GeoPoint → GeoDto
geo_to_dto geo = record { lat = geo.lat; lon = geo.lon }
