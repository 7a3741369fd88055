-- ===== src/Build/Bindings.antt =====
-- The basins of src/swimzh/build/compose.py: whose timetable a pool takes, and the curated lane
-- bindings that a scraped one carries. `none` is the ValueError of a build that cannot tell which
-- timetable a lane basin has.
use swimming_in_zurich.Base.{
  ℕ, zero, suc, ◌-◌, Bool, true, false, not, any, keep, nonempty, if◌then◌else◌, Option, none, some,
  List, [], ◌∷◌, ◌++◌, String, str_eq, map, length,
}
use swimming_in_zurich.Base.Maybe.{◌>>=◌}
use swimming_in_zurich.Text.{join, decimal}
use swimming_in_zurich.Schedule.{ScheduleRule}
use swimming_in_zurich.Models.{LanePlanSource, Basin, Facility}

unfoldable pub has_schedule : List Basin → Bool
has_schedule basins = any (λ (b : Basin). nonempty b.rules) basins

abbrev pub url_of : Option LanePlanSource → List String
url_of none = []
url_of (some source) = source.url ∷ []

-- `{b.lane_plan_source.url for b in basins if b.lane_plan_source is not None}`
unfoldable pub urls_of : List Basin → List String
urls_of [] = []
urls_of (b ∷ bs) = url_of b.lane_plan_source ++ urls_of bs

abbrev pub is_bound : List String → Option LanePlanSource → Bool
is_bound scraped_urls none = false
is_bound scraped_urls (some source) = not (any (str_eq source.url) scraped_urls)

-- `bound`
unfoldable pub bound_basins : List String → List Basin → List Basin
bound_basins scraped_urls basins =
    keep (λ (b : Basin). is_bound scraped_urls b.lane_plan_source) basins

-- `replace(basin, rules=timetable)`
abbrev pub with_rules : List ScheduleRule → Basin → Basin
with_rules timetable basin = record {
  basin_id = basin.basin_id;
  name = basin.name;
  rules = timetable;
  exceptions = basin.exceptions;
  kind = basin.kind;
  dimensions = basin.dimensions;
  lanes = basin.lanes;
  nominal_temp_c = basin.nominal_temp_c;
  measured_temp_c = basin.measured_temp_c;
  diving_platforms_m = basin.diving_platforms_m;
  physical_source = basin.physical_source;
  lane_plan_source = basin.lane_plan_source;
  lane_plan = basin.lane_plan;
}

-- The end of `_carry_bindings`, by the scraped basins that bear rules.
abbrev pub carry : List Basin → List Basin → List Basin → Option (List Basin)
carry scraped bound [] = some (scraped ++ bound)
carry scraped bound (b ∷ []) = some (scraped ++ map (with_rules b.rules) bound)
carry scraped bound (b ∷ c ∷ rest) = none

-- `_carry_bindings`
unfoldable pub carry_bindings : List Basin → List Basin → Option (List Basin)
unfolding bound_basins urls_of
carry_bindings scraped_basins curated_basins =
    carry scraped_basins (bound_basins (urls_of scraped_basins) curated_basins)
      (keep (λ (b : Basin). nonempty b.rules) scraped_basins)

-- `by_source`: a key that is missing is `none`.
pub record BySource : Type 0 where
  pub curated : Option Facility
  pub scraped : Option Facility

abbrev pub basins_of : Option Facility → List Basin
basins_of none = []
basins_of (some f) = f.basins

-- `_merge_basins`: the basins, the note, and whether the scraped timetable won.
pub record MergedBasins : Type 0 where
  pub basins : List Basin
  pub note : List String
  pub scraped_schedule : Bool

unfoldable pub carried_note : ℕ → List String
unfolding join decimal
carried_note zero = []
carried_note (suc n) =
    join "" ("basins: scraped schedule + " ∷ decimal (suc n) ∷ " curated lane binding(s)" ∷ []) ∷ []

unfoldable pub merge_basins : BySource → Option MergedBasins
unfolding has_schedule carry_bindings carried_note
merge_basins by_source =
    let curated = basins_of by_source.curated in
    let scraped = basins_of by_source.scraped in
    let carried = (do
      merged ← carry_bindings scraped curated
      some (record {
        basins = merged;
        note = carried_note (length merged - length scraped);
        scraped_schedule = true;
      })) in
    if has_schedule curated
    then some (record { basins = curated; note = []; scraped_schedule = false })
    else if has_schedule scraped
    then carried
    else some (record {
      basins = if nonempty curated then curated else scraped;
      note = [];
      scraped_schedule = false;
    })
