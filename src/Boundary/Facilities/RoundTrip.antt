-- ===== src/Boundary/Facilities/RoundTrip.antt =====
-- Basins and the parts of a facility (src/swimzh/boundary/mapping.py) survive the way to their DTOs and
-- back.
use swimming_in_zurich.Base.{some, String, ◌≡◌, refl, All}
use swimming_in_zurich.Base.Maybe.{
  traverse-map, traverse-map_all, if_given_try-if_given_all, if_given-if_given,
}
use swimming_in_zurich.Models.{
  Basin, Feature, LockerOption, RentalFee, priced, gratis, unstated, RentalItem, PriceEntry,
  PriceTable, Dimensions, LanePlanSource,
}
use swimming_in_zurich.Boundary.FacilityTokens.{
  basin_kind_from-to, basin_source_from-to, feature_kind_from-to, locker_category_from-to,
  locker_mechanism_to, locker_mechanism_from, locker_mechanism_from-to, rental_kind_from-to,
  category_from-to,
}
use swimming_in_zurich.Boundary.Schedules.{
  rule_from_dto, rule_to_dto, exception_from_dto, exception_to_dto,
}
use swimming_in_zurich.Boundary.Schedules.RoundTrip.{
  IsRule, IsException, rule_from-to, exception_from-to,
}
use swimming_in_zurich.Boundary.Plans.{
  dimensions_from_dto, dimensions_to_dto, lane_plan_source_from_dto, lane_plan_source_to_dto,
}
use swimming_in_zurich.Boundary.Plans.RoundTrip.{IsOutcome, outcome_from-to}
use swimming_in_zurich.Boundary.Facilities.{
  basin_from_dto, basin_to_dto, feature_from_dto, feature_to_dto, locker_from_dto, locker_to_dto,
  rental_fee_from_dto, rental_fee_to_dto, rental_from_dto, rental_to_dto, price_entry_from_dto,
  price_entry_to_dto, price_table_from_dto, price_table_to_dto,
}

abbrev pub IsBasin : (String → String) → Basin → Type 0
IsBasin casefold b =
    All IsRule b.rules × All (IsException casefold) b.exceptions × IsOutcome b.lane_plan

abbrev pub IsFeature : Feature → Type 0
IsFeature f = All IsRule f.hours

dimensions_from-to : (d : Dimensions) → dimensions_from_dto (dimensions_to_dto d) ≡ d
unfolding dimensions_from_dto dimensions_to_dto
dimensions_from-to d = refl

source_from-to : (s : LanePlanSource) → lane_plan_source_from_dto (lane_plan_source_to_dto s) ≡ s
unfolding lane_plan_source_from_dto lane_plan_source_to_dto
source_from-to s = refl

pub basin_from-to :
    (casefold : String → String) (b : Basin)
    → IsBasin casefold b
    → basin_from_dto casefold (basin_to_dto b) ≡ some b
unfolding basin_from_dto basin_to_dto
basin_from-to casefold b (rules, exceptions, plan) = rw (
  traverse-map rule_from_dto rule_to_dto IsRule rule_from-to b.rules rules,
  traverse-map (exception_from_dto casefold) exception_to_dto (IsException casefold)
      (exception_from-to casefold) b.exceptions exceptions,
  basin_kind_from-to b.kind,
  basin_source_from-to b.physical_source,
  outcome_from-to b.lane_plan plan,
  if_given-if_given dimensions_from_dto dimensions_to_dto dimensions_from-to b.dimensions,
  if_given-if_given lane_plan_source_from_dto lane_plan_source_to_dto source_from-to
      b.lane_plan_source,
)

pub feature_from-to :
    (f : Feature) → All IsRule f.hours → feature_from_dto (feature_to_dto f) ≡ some f
unfolding feature_from_dto feature_to_dto
feature_from-to f hours = rw (
  feature_kind_from-to f.kind,
  traverse-map rule_from_dto rule_to_dto IsRule rule_from-to f.hours hours,
)

pub locker_from-to : (l : LockerOption) → locker_from_dto (locker_to_dto l) ≡ some l
unfolding locker_from_dto locker_to_dto
locker_from-to l = rw (
  locker_category_from-to l.category,
  if_given_try-if_given_all locker_mechanism_from locker_mechanism_to locker_mechanism_from-to
      l.mechanism,
)

-- The two keys `fee_chf` and `fee_state` tell the three fees apart.
fee_from-to :
    (fee : RentalFee)
    → rental_fee_from_dto (rental_fee_to_dto fee).0 (rental_fee_to_dto fee).1 ≡ fee
unfolding rental_fee_from_dto rental_fee_to_dto
fee_from-to (priced amount) = refl
fee_from-to gratis = refl
fee_from-to unstated = refl

pub rental_from-to : (r : RentalItem) → rental_from_dto (rental_to_dto r) ≡ some r
unfolding rental_from_dto rental_to_dto
rental_from-to r = rw (rental_kind_from-to r.kind, fee_from-to r.fee)

entry_from-to : (e : PriceEntry) → price_entry_from_dto (price_entry_to_dto e) ≡ some e
unfolding price_entry_from_dto price_entry_to_dto
entry_from-to e = rw (category_from-to e.category)

pub price_table_from-to : (t : PriceTable) → price_table_from_dto (price_table_to_dto t) ≡ some t
unfolding price_table_from_dto price_table_to_dto
price_table_from-to t =
    rw (traverse-map_all price_entry_from_dto price_entry_to_dto entry_from-to t.entries)
