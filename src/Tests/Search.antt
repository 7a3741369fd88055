-- ===== src/Tests/Search.antt =====
-- The theorems of Query at a concrete request.
use swimming_in_zurich.Base.{
  ◌+◌, ◌-◌, ◌*◌, ◌/◌, false, ltb, ◌==◌, none, some, [], ◌∷◌, ◌≡◌, refl, ◌↔◌, inl, In,
}
use swimming_in_zurich.Dates.{clock}
use swimming_in_zurich.Models.{Facility, PoolKind}
use swimming_in_zurich.Query.Types.{Platform, FloatOps, SwimQuery, SwimOption, QueryResult}
use swimming_in_zurich.Query.Visit.{option_of}
use swimming_in_zurich.Query.Search.{find_swim_options, request_of}
use swimming_in_zurich.Resolver.{session_of}
use swimming_in_zurich.Query.Totality.{find_swim_options-total}
use swimming_in_zurich.Query.Options.{FromFacility}
use swimming_in_zurich.Catalog.{RosterEntry, no_source}
use swimming_in_zurich.Query.Answer.{find_swim_options-FromFacility}
use swimming_in_zurich.Tests.Data.{
  calendar, city, city_basin, public_hours, paddling, same_case, tuesday_in_term,
}

-- Whole numbers in place of floats; every distance is 0.
abbrev whole : FloatOps
whole = record {
  radians = λ x. x;
  sin = λ x. some 0;
  cos = λ x. some 1;
  asin = λ x. some x;
  sqrt = λ x. some x;
  add = λ x y. x + y;
  sub = λ x y. x - y;
  mul = λ x y. x * y;
  div = λ x y. x / y;
  two = 2;
  earth_radius_km = 6371;
  infinity = 1000000;
  lt = ltb;
  eq = λ x y. x == y;
}

abbrev platform : Platform
platform = record {
  casefold = same_case;
  floats = whole;
  formats = record { fixed = λ x places. ""; repr = λ v. "" };
  to_zurich = λ d. d;
  zurich_clock = λ i. record { date = tuesday_in_term; time = i; instant = some i };
  minus = λ later earlier. record { negative = false; micros = later - earlier };
}

abbrev query : SwimQuery
query = record {
  person = record { gender = none; age = some 30 };
  at = record { date = tuesday_in_term; time = clock 18 30; instant = none };
  near = none;
  radius_km = none;
}

abbrev answered :
    (res : QueryResult) × (find_swim_options platform query
        (city ∷ paddling ∷ [])
        calendar
        []
        none
        0
      ≡ some res)
answered =
    find_swim_options-total platform query (city ∷ paddling ∷ []) calendar [] none 0 (inl refl)

-- The day-long public session of the city's basin.
abbrev offer : SwimOption
offer =
    option_of (request_of platform query calendar 0 none) city city_basin (session_of public_hours)

find_swim_options-FromFacility_example : In offer answered.0.options ↔ (
    (facility : Facility) × In facility (city ∷ paddling ∷ [])
    × FromFacility (request_of platform query calendar 0 none) facility offer)
find_swim_options-FromFacility_example =
    find_swim_options-FromFacility platform query (city ∷ paddling ∷ []) calendar [] none 0
      answered.0 answered.1 offer

-- A school pool, for which no timetable is published.
abbrev school_pool : RosterEntry
school_pool = record {
  entry = record {
    pool_id = "schulschwimmanlage-hardau";
    name = "Schulschwimmanlage Hardau";
    kind = PoolKind.school;
    address = "";
    geo = none;
    url = none;
    description = none;
    phone = none;
    poi_id = none;
  };
  freshness = no_source;
}

abbrev listed :
    (res : QueryResult) × (find_swim_options platform query
        (city ∷ [])
        calendar
        (school_pool ∷ [])
        none
        0
      ≡ some res)
listed =
    find_swim_options-total platform query (city ∷ []) calendar (school_pool ∷ []) none 0 (inl refl)
