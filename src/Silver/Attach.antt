-- ===== src/Silver/Attach.antt =====
-- src/swimzh/etl/silver.py: `index_bound_plans` and `attach_lane_plans`.
use swimming_in_zurich.Base.{not, if◌then◌else◌, Option, none, some, List, [], ◌∷◌, ◌++◌, String}
use swimming_in_zurich.Text.{join}
use swimming_in_zurich.Dates.{Date, date_le, isoformat}
use swimming_in_zurich.Errors.{Result, ok, err, ProviderError, schema_mismatch, Datetime}
use swimming_in_zurich.Errors.Chain.{◌>>=◌}
use swimming_in_zurich.Models.{LanePlan, parsed, Basin, Facility}
use swimming_in_zurich.Silver.{
  BasinRef, ParsedPlan, BoundPlan, UnboundPlan, UnmatchedSection, ref_eq,
}
use swimming_in_zurich.Silver.Bindings.{repr_ref, build_url_bindings}
use swimming_in_zurich.Silver.Join.{bind_plans, find_unmatched_sections}

pub record LanePlanAttachment : Type 0 where
  pub facilities : List Facility
  pub warnings : List String
  pub unbound : List UnboundPlan
  pub unmatched_sections : List UnmatchedSection

-- `by_basin.get(ref)`
unfoldable pub plan_at : BasinRef → List (BasinRef × LanePlan) → Option LanePlan
unfolding ref_eq
plan_at ref [] = none
plan_at ref ((r, plan) ∷ rest) = if ref_eq ref r then some plan else plan_at ref rest

abbrev pub index_plan :
    (String → String)
    → BasinRef
    → LanePlan
    → Option LanePlan
    → List (BasinRef × LanePlan)
    → Result (List (BasinRef × LanePlan)) ProviderError
index_plan repr ref plan none by_basin = ok ((ref, plan) ∷ by_basin)
index_plan repr ref plan (some _) by_basin = err (
    schema_mismatch "silver"
      (join "" ("two lane plans bound to one basin " ∷ repr_ref repr ref ∷ [])))

-- The loop of `index_bound_plans`. The dict is only looked up, so its order is left open.
unfoldable pub index_from :
    (String → String)
    → List BoundPlan
    → List (BasinRef × LanePlan)
    → Result (List (BasinRef × LanePlan)) ProviderError
unfolding plan_at join repr_ref
index_from repr [] by_basin = ok by_basin
index_from repr (bp ∷ rest) by_basin = do
  next ←
      index_plan repr (bp.pool_id, bp.basin_id) bp.plan (plan_at (bp.pool_id, bp.basin_id) by_basin)
        by_basin
  index_from repr rest next

unfoldable pub index_bound_plans :
    (String → String) → List BoundPlan → Result (List (BasinRef × LanePlan)) ProviderError
unfolding index_from
index_bound_plans repr bound = index_from repr bound []

unfoldable pub staleness_text : Facility → Basin → Date → Date → String
unfolding join isoformat
staleness_text facility basin valid_from valid_as_of = join "" (
    facility.identity.name
    ∷ " / "
    ∷ basin.name
    ∷ ": lane plan valid_from "
    ∷ isoformat valid_from
    ∷ " predates schedule valid_as_of "
    ∷ isoformat valid_as_of
    ∷ " (lane data may be stale)"
    ∷ [])

-- `_staleness_warning`, as the list of its warnings.
unfoldable pub staleness_warning : Facility → Basin → Option Date → Option Date → List String
unfolding staleness_text date_le
staleness_warning facility basin (some valid_from) (some valid_as_of) =
    if not (date_le valid_as_of valid_from)
    then staleness_text facility basin valid_from valid_as_of ∷ []
    else []
staleness_warning facility basin none _ = []
staleness_warning facility basin (some _) none = []

-- `replace(plan, fetched_at=fetched_at)`
abbrev pub stamped : LanePlan → Datetime → LanePlan
stamped plan fetched_at = record {
  lane_count = plan.lane_count;
  reservations = plan.reservations;
  valid_from = plan.valid_from;
  coverage = plan.coverage;
  fetched_at = some fetched_at;
  lanes_by_weekday = plan.lanes_by_weekday;
}

-- `replace(basin, lane_plan=plan)`
abbrev pub with_plan : Basin → LanePlan → Basin
with_plan basin plan = record {
  basin_id = basin.basin_id;
  name = basin.name;
  rules = basin.rules;
  exceptions = basin.exceptions;
  kind = basin.kind;
  dimensions = basin.dimensions;
  lanes = basin.lanes;
  nominal_temp_c = basin.nominal_temp_c;
  measured_temp_c = basin.measured_temp_c;
  diving_platforms_m = basin.diving_platforms_m;
  physical_source = basin.physical_source;
  lane_plan_source = basin.lane_plan_source;
  lane_plan = parsed plan;
}

-- `replace(facility, basins=basins)`
abbrev pub with_basins : Facility → List Basin → Facility
with_basins facility basins = record {
  identity = facility.identity;
  address = facility.address;
  provenance = facility.provenance;
  basins = basins;
  geo = facility.geo;
  closures = facility.closures;
  public_holiday_policy = facility.public_holiday_policy;
  operating_season = facility.operating_season;
  admission = facility.admission;
  notices = facility.notices;
  features = facility.features;
  lockers = facility.lockers;
  rentals = facility.rentals;
  last_admission_before = facility.last_admission_before;
}

-- What the loop over the basins changes: the new basins and the warnings.
pub record Merged (A : Type 0) : Type 0 where
  pub items : List A
  pub warnings : List String

abbrev pub attach_basin : Facility → Basin → Option LanePlan → Datetime → Basin × List String
attach_basin facility basin none fetched_at = (basin, [])
attach_basin facility basin (some plan) fetched_at = (
  with_plan basin (stamped plan fetched_at),
  staleness_warning facility basin plan.valid_from facility.provenance.valid_as_of,
)

unfoldable pub attach_basins :
    Facility → List (BasinRef × LanePlan) → Datetime → List Basin → Merged Basin
unfolding plan_at staleness_warning
attach_basins facility by_basin fetched_at [] = record { items = []; warnings = [] }
attach_basins facility by_basin fetched_at (basin ∷ basins) =
    let (new, warning) =
      attach_basin facility basin (plan_at (facility.identity.facility_id, basin.basin_id) by_basin)
        fetched_at in
    let rest = attach_basins facility by_basin fetched_at basins in
    record { items = new ∷ rest.items; warnings = warning ++ rest.warnings }

-- A facility of which no basin changed is replaced by one that is equal to it.
unfoldable pub attach_facilities :
    List (BasinRef × LanePlan) → Datetime → List Facility → Merged Facility
unfolding attach_basins
attach_facilities by_basin fetched_at [] = record { items = []; warnings = [] }
attach_facilities by_basin fetched_at (facility ∷ facilities) =
    let merged = attach_basins facility by_basin fetched_at facility.basins in
    let rest = attach_facilities by_basin fetched_at facilities in
    record {
      items = with_basins facility merged.items ∷ rest.items;
      warnings = merged.warnings ++ rest.warnings;
    }

unfoldable pub attach_lane_plans :
    (String → String)
    → (String → String)
    → List Facility
    → List ParsedPlan
    → Datetime
    → Result LanePlanAttachment ProviderError
unfolding attach_facilities build_url_bindings index_bound_plans bind_plans find_unmatched_sections
attach_lane_plans casefold repr facilities parsed_plans fetched_at = do
  url_bindings ← build_url_bindings repr facilities
  by_basin ← index_bound_plans repr (bind_plans casefold parsed_plans url_bindings).bound
  let merged = attach_facilities by_basin fetched_at facilities in
      ok (record {
        facilities = merged.items;
        warnings = merged.warnings;
        unbound = (bind_plans casefold parsed_plans url_bindings).unbound;
        unmatched_sections = find_unmatched_sections casefold url_bindings parsed_plans;
      })
