-- ===== src/Tests/Built.antt =====
-- The theorems of Silver and Build at concrete pools.
use swimming_in_zurich.Base.{true, none, some, List, [], ◌∷◌, String, map, ◌≡◌, refl, ◌↔◌, ◌⊎◌, In}
use swimming_in_zurich.Base.Sort.{Ascending}
use swimming_in_zurich.Text.{str_le}
use swimming_in_zurich.Dates.{date, clock}
use swimming_in_zurich.Errors.{Datetime, ok}
use swimming_in_zurich.Models.{Basin, BasinKind, BasinSource, no_plan, Facility, PoolKind}
use swimming_in_zurich.Silver.{Binding, ParsedPlan}
use swimming_in_zurich.Silver.Join.{bind_plans}
use swimming_in_zurich.Silver.Attach.{
  LanePlanAttachment, stamped, with_plan, with_basins, attach_lane_plans,
}
use swimming_in_zurich.Silver.Counts.{Split, bind_plans-Split}
use swimming_in_zurich.Base.Count.{count}
use swimming_in_zurich.Silver.Safety.{Pairwise, AttachedAll, attach_lane_plans-AttachedAll}
use swimming_in_zurich.Build.Reconcile.{
  SourceRef, xref, name, Crosswalk, crosswalk_from_rows, resolve_all,
}
use swimming_in_zurich.Build.Reconcile.Batch.{keyed, missed, resolve_all-keyed}
use swimming_in_zurich.Build.Bindings.{BySource, has_schedule, with_rules, carry_bindings}
use swimming_in_zurich.Build.Compose.{fold, Composition, compose_facilities}
use swimming_in_zurich.Build.Compose.Fold.{Folded, fold-Folded}
use swimming_in_zurich.Build.Compose.Basins.{Carried, carry_bindings-Carried}
use swimming_in_zurich.Build.Compose.Ids.{id_of, compose_facilities_ids}
use swimming_in_zurich.Base.Distinct.{Distinct}
use swimming_in_zurich.Tests.Data.{plan, public_hours, facility, identity, same_case, revision}

abbrev quoted : String → String
quoted s = s

abbrev sheet : String
sheet = "https://example.org/city.pdf"

-- The lap basin of the authored file: a source, and no rules.
abbrev lap : Basin
lap = record {
  basin_id = "lap";
  name = "Schwimmerbecken";
  rules = [];
  exceptions = [];
  kind = BasinKind.lap;
  dimensions = none;
  lanes = some 4;
  nominal_temp_c = none;
  measured_temp_c = none;
  diving_platforms_m = [];
  physical_source = BasinSource.curated;
  lane_plan_source = some (record { url = sheet; section = some "Schwimmer" });
  lane_plan = no_plan;
}

-- The one basin that a scrape makes.
abbrev main_basin : Basin
main_basin = record {
  basin_id = "main";
  name = "Hauptbecken";
  rules = public_hours ∷ [];
  exceptions = [];
  kind = BasinKind.other;
  dimensions = none;
  lanes = none;
  nominal_temp_c = none;
  measured_temp_c = none;
  diving_platforms_m = [];
  physical_source = BasinSource.curated;
  lane_plan_source = none;
  lane_plan = no_plan;
}

abbrev authored : Facility
authored =
    facility (identity "hallenbad-city" "Hallenbad City" PoolKind.indoor) (lap ∷ []) (revision ∷ [])
      none

abbrev scraped : Facility
scraped =
    facility (identity "hallenbad-city" "Hallenbad City" PoolKind.indoor) (main_basin ∷ []) [] none

abbrev other_pool : Facility
other_pool =
    facility (identity "freibad-letzigraben" "Freibad Letzigraben" PoolKind.outdoor)
      (main_basin ∷ []) [] none

abbrev page : String → ParsedPlan
page hint = record { basin_hint = hint; plan = plan; source_url = sheet }

abbrev pages : List ParsedPlan
pages = page "Schwimmer 50 m" ∷ page "Sprungbecken" ∷ []

abbrev midnight : Datetime
midnight = record { date = date 2026 3 1; time = clock 0 0; instant = none }

abbrev declared_bindings : List (String × List Binding)
declared_bindings =
    (
      sheet,
      record { pool_id = "hallenbad-city"; basin_id = "lap"; section = some "Schwimmer" } ∷ [],
    )
    ∷ []

bind_plans-Split_example : Split (λ q. count q pages) (bind_plans same_case pages declared_bindings)
bind_plans-Split_example = bind_plans-Split same_case pages declared_bindings

program : Unit {0}
unfolding attach_lane_plans fold carry_bindings has_schedule compose_facilities
program = tt

abbrev attached : LanePlanAttachment
attached = record {
  facilities = with_basins authored (with_plan lap (stamped plan midnight) ∷ []) ∷ [];
  warnings = [];
  unbound =
      record {
        source_url = sheet;
        basin_hint = "Sprungbecken";
        reason = "no declared section token matches this parsed header";
      }
      ∷ [];
  unmatched_sections = [];
}

attach_run : attach_lane_plans same_case quoted (authored ∷ []) pages midnight ≡ ok attached
unfolding program
attach_run = refl

attach_lane_plans-AttachedAll_example :
    Pairwise
      (AttachedAll same_case (authored ∷ []) pages midnight)
      (authored ∷ [])
      attached.facilities
attach_lane_plans-AttachedAll_example =
    attach_lane_plans-AttachedAll same_case quoted (authored ∷ []) pages midnight attached
      attach_run

abbrev extracts : List (SourceRef × String)
extracts = (name "Hallenbad City", "hours") ∷ (xref "geo_sport" "poi.9", "place") ∷ []

abbrev known : Crosswalk
known = crosswalk_from_rows (("Hallenbad City", "hallenbad-city") ∷ []) []

resolve_all-keyed_example :
    resolve_all same_case quoted extracts known
    ≡ ok (record {
      resolved = keyed same_case quoted known extracts;
      unresolved = missed same_case quoted known extracts;
    })
resolve_all-keyed_example = resolve_all-keyed same_case quoted known extracts

abbrev both : BySource
both = record { curated = some authored; scraped = some scraped }

abbrev merged : List Basin
merged = main_basin ∷ with_rules (public_hours ∷ []) lap ∷ []

abbrev folded : Facility
folded = with_basins authored merged

abbrev basin_note : List String
basin_note = "Hallenbad City: basins: scraped schedule + 1 curated lane binding(s)" ∷ []

fold_run : fold both ≡ some (folded, basin_note)
unfolding program
fold_run = refl

fold-Folded_example : Folded both folded
fold-Folded_example = fold-Folded both folded basin_note fold_run

carry_run : carry_bindings (main_basin ∷ []) (lap ∷ []) ≡ some merged
unfolding program
carry_run = refl

main_has_schedule : has_schedule (main_basin ∷ []) ≡ true
unfolding program
main_has_schedule = refl

carry_bindings-Carried_example : Carried (main_basin ∷ []) (lap ∷ []) merged
carry_bindings-Carried_example =
    carry_bindings-Carried (main_basin ∷ []) (lap ∷ []) merged main_has_schedule carry_run

abbrev composed : Composition
composed = record { facilities = other_pool ∷ folded ∷ []; notes = basin_note }

compose_run : compose_facilities (authored ∷ []) (scraped ∷ other_pool ∷ []) ≡ some composed
unfolding program
compose_run = refl

compose_facilities_ids_example :
    Ascending str_le (map id_of composed.facilities)
    × Distinct (map id_of composed.facilities)
    × ((k : String)
        → In k (map id_of composed.facilities)
          ↔ (In k (map id_of (authored ∷ [])) ⊎ In k (map id_of (scraped ∷ other_pool ∷ []))))
compose_facilities_ids_example =
    compose_facilities_ids (authored ∷ []) (scraped ∷ other_pool ∷ []) composed compose_run
