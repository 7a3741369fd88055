-- ===== src/Tests/Stored.antt =====
-- The theorems of Storage at a concrete pool, calendar and catalog.
use swimming_in_zurich.Base.{none, some, List, [], ◌∷◌, ◌≡◌, refl, arith, All}
use swimming_in_zurich.Dates.{date, clock}
use swimming_in_zurich.Errors.{Datetime}
use swimming_in_zurich.Closure.{public_holiday, maintenance, classify_closure}
use swimming_in_zurich.Calendar.{holiday_on, context, covers}
use swimming_in_zurich.Schedule.{sunday, on_weekday, days_in_month, ClosureRange}
use swimming_in_zurich.Models.{Facility, PoolKind, parsed}
use swimming_in_zurich.Catalog.{PoolCatalogEntry}
use swimming_in_zurich.Panel.{sorted_weekdays}
use swimming_in_zurich.Boundary.Schedules.RoundTrip.{IsClosure, IsException, IsRule, IsWeekdays}
use swimming_in_zurich.Boundary.Plans.RoundTrip.{IsPlan}
use swimming_in_zurich.Storage.Codec.{Pydantic, to_stored, from_stored}
use swimming_in_zurich.Storage.Codec.RoundTrip.{IsFacility, from_stored-to_stored}
use swimming_in_zurich.Storage.Codec.Recoded.{recoded, from_stored-recoded}
use swimming_in_zurich.Storage.Codec.Invariant.{from_stored-IsFacility}
use swimming_in_zurich.Storage.CalendarCodec.{calendar_to_dto, calendar_from_dto}
use swimming_in_zurich.Storage.CalendarCodec.RoundTrip.{context-calendar_from_dto}
use swimming_in_zurich.Storage.CatalogJson.{
  catalog_of, catalog_dumps, catalog_loads, catalog_loads-catalog_dumps,
}
use swimming_in_zurich.Tests.Data.{
  weekdays, calendar, city_rules, gala, plan, basin, facility, identity, same_case, paddling_season,
}

abbrev works : ClosureRange
works = record {
  start = date 2026 8 3;
  end = date 2026 8 16;
  reason = " revision ";
  code = maintenance;
  params = [];
}

abbrev bath : Facility
bath =
    facility (identity "hallenbad-bungertwies" "Hallenbad Bungertwies" PoolKind.indoor)
      (basin city_rules (gala ∷ []) (parsed plan) ∷ []) (works ∷ []) (some paddling_season)

works-IsClosure : IsClosure same_case works
unfolding classify_closure
works-IsClosure = refl

gala-IsException : IsException same_case gala
unfolding classify_closure
gala-IsException = (tt, refl)

weekdays_IsWeekdays : IsWeekdays weekdays
unfolding sorted_weekdays on_weekday
weekdays_IsWeekdays = refl

sunday_IsWeekdays : IsWeekdays (sunday ∷ [])
unfolding sorted_weekdays on_weekday
sunday_IsWeekdays = refl

rules_IsRule : All IsRule city_rules
rules_IsRule = (
  (weekdays_IsWeekdays, omega arith, tt),
  ((weekdays_IsWeekdays, omega arith, tt), ((sunday_IsWeekdays, omega arith, tt), tt)),
)

plan_IsPlan : IsPlan plan
plan_IsPlan = (
  (
    (weekdays_IsWeekdays, omega arith, (omega arith, tt)),
    (
      (weekdays_IsWeekdays, omega arith, (omega arith, tt)),
      ((weekdays_IsWeekdays, omega arith, (omega arith, (omega arith, (omega arith, tt)))), tt),
    ),
  ),
  tt,
  tt,
)

bath-IsFacility : IsFacility same_case bath
unfolding days_in_month
bath-IsFacility = (
  ((rules_IsRule, (gala-IsException, tt), plan_IsPlan), tt),
  (works-IsClosure, tt),
  (
    (omega arith, omega arith, omega arith, omega arith, λ h. omega arith, λ h. omega arith),
    (omega arith, omega arith, omega arith, omega arith, λ h. omega arith, λ h. omega arith),
  ),
  tt,
)

from_stored-to_stored_example : from_stored same_case (to_stored bath) ≡ some bath
from_stored-to_stored_example = from_stored-to_stored same_case bath bath-IsFacility

-- The bath with a closure whose code is stated by the caller.
abbrev stated : Facility
stated = record bath { closures = record works { code = public_holiday; params = [] } ∷ [] }

from_stored-recoded_example :
    from_stored same_case (to_stored stated) ≡ some (recoded same_case stated)
from_stored-recoded_example =
    from_stored-recoded same_case stated
      (((rules_IsRule, (gala-IsException.0, tt), plan_IsPlan), tt), bath-IsFacility.2, tt)

from_stored-IsFacility_example :
    IsFacility same_case bath × (from_stored same_case (to_stored bath) ≡ some bath)
from_stored-IsFacility_example =
    from_stored-IsFacility same_case (to_stored bath) bath
      (from_stored-to_stored same_case bath bath-IsFacility)

-- A pydantic that has seen one document.
abbrev one_text : {Dto : Type 0} → Dto → Pydantic Dto
one_text dto = record { model_dump_json = λ _. "{}"; model_validate_json = λ _. some dto }

context-calendar_from_dto_example :
    (context (calendar_from_dto (calendar_to_dto calendar)) (date 2026 5 1)
      ≡ context calendar (date 2026 5 1))
    × (covers (calendar_from_dto (calendar_to_dto calendar)) (date 2026 5 1)
        ≡ covers calendar (date 2026 5 1))
unfolding holiday_on
context-calendar_from_dto_example = context-calendar_from_dto calendar (date 2026 5 1) (refl, tt)

abbrev entries : List PoolCatalogEntry
entries =
    record {
      pool_id = "hallenbad-city";
      name = "Hallenbad City";
      kind = PoolKind.indoor;
      address = "Sihlstrasse 71";
      geo = none;
      url = none;
      description = none;
      phone = none;
      poi_id = some "poi_hallenbad_view.2";
    }
    ∷ []

abbrev midnight : Datetime
midnight = record { date = date 2026 3 1; time = clock 0 0; instant = none }

catalog_loads-catalog_dumps_example :
    catalog_loads
      (one_text (catalog_of entries midnight))
      (catalog_dumps (one_text (catalog_of entries midnight)) entries midnight)
    ≡ some entries
catalog_loads-catalog_dumps_example =
    catalog_loads-catalog_dumps (one_text (catalog_of entries midnight)) entries midnight refl
