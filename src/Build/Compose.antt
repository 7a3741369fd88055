-- ===== src/Build/Compose.antt =====
-- src/swimzh/build/compose.py: one facility per pool from a curated and a scraped one. `none` is the
-- ValueError of a build that cannot tell which timetable a lane basin has.
pub mod Basins
pub mod Fold
pub mod Ids
use swimming_in_zurich.Base.{
  ℕ, zero, suc, ◌-◌, Bool, true, false, not, ◌&&◌, any, keep, nonempty, is_none, if◌then◌else◌,
  Option, none, some, List, [], ◌∷◌, ◌++◌, String, str_eq, map, length,
}
use swimming_in_zurich.Base.Maybe.{◌>>=◌}
use swimming_in_zurich.Base.Sort.{sort}
use swimming_in_zurich.Text.{join, decimal, str_le}
use swimming_in_zurich.Errors.{Datetime}
use swimming_in_zurich.Closure.{lookup}
use swimming_in_zurich.Registry.{put}
use swimming_in_zurich.Schedule.{ScheduleRule, ClosureRange, HolidayPolicy}
use swimming_in_zurich.Build.Bindings.{BySource, MergedBasins, merge_basins}
use swimming_in_zurich.Models.{
  GeoPoint, PoolKind, Provenance, LanePlanSource, Basin, Notice, Feature, LockerOption, RentalItem,
  Admission, free, tariff, unknown, OperatingSeason, Facility,
}

pub record ScrapedAspects : Type 0 where
  pub name : String
  pub kind : PoolKind
  pub address : String
  pub geo : Option GeoPoint
  pub basins : List Basin
  pub closures : List ClosureRange
  pub notices : List Notice
  pub admission : Admission
  pub fetched_at : Datetime
  pub features : List Feature
  pub lockers : List LockerOption
  pub rentals : List RentalItem
  pub public_holiday_policy : Option HolidayPolicy
  -- Seconds.
  pub last_admission_before : Option ℕ
  pub operating_season : Option OperatingSeason

-- `_scraped_facility`
unfoldable pub scraped_facility : String → ScrapedAspects → Facility
scraped_facility pool_id aspects = record {
  identity = record {
    facility_id = pool_id;
    name = aspects.name;
    kind = aspects.kind;
    geo_sport_id = none;
    crowdmonitor_keys = [];
    baditicker_poiid = none;
    aliases = [];
  };
  address = aspects.address;
  provenance = record {
    source = "schedule_scraper";
    curated = false;
    valid_as_of = some aspects.fetched_at.date;
    fetched_at = some aspects.fetched_at;
  };
  basins = aspects.basins;
  geo = aspects.geo;
  closures = aspects.closures;
  public_holiday_policy = aspects.public_holiday_policy;
  operating_season = aspects.operating_season;
  admission = aspects.admission;
  notices = aspects.notices;
  features = aspects.features;
  lockers = aspects.lockers;
  rentals = aspects.rentals;
  last_admission_before = aspects.last_admission_before;
}

unfoldable pub is_known_admission : Admission → Bool
is_known_admission free = true
is_known_admission (tariff _) = true
is_known_admission unknown = false

abbrev pub is_given : {A : Type 0} → Option A → Bool
is_given o = not (is_none o)

-- The value of an aspect that a source supplies.
abbrev pub supplied : {A : Type 0} → (A → Bool) → (Facility → A) → Option Facility → Option A
supplied present aspect none = none
supplied present aspect (some f) = if present (aspect f) then some (aspect f) else none

-- An aspect after its row of `_ASPECTS`, curated first, over the value of the base.
abbrev pub choose : {A : Type 0} → Option A → Option A → A → A
choose (some a) _ base = a
choose none (some b) base = b
choose none none base = base

unfoldable pub kept_note : String → String → String
unfolding join
kept_note name aspect =
    join "" (name ∷ ": " ∷ aspect ∷ " kept from curated (also supplied by scraped)" ∷ [])

abbrev pub choice_note : {A : Type 0} → String → String → Option A → Option A → List String
choice_note name aspect (some _) (some _) = kept_note name aspect ∷ []
choice_note name aspect none _ = []
choice_note name aspect (some _) none = []

-- The value and the note of one aspect.
unfoldable pub fold_aspect :
    {A : Type 0} → String → (A → Bool) → (Facility → A) → BySource → Facility → A × List String
unfolding kept_note
fold_aspect aspect present field by_source base =
    let curated = supplied present field by_source.curated in
    let scraped = supplied present field by_source.scraped in
    (choose curated scraped (field base), choice_note base.identity.name aspect curated scraped)

abbrev pub provenance_of : Bool → Option Facility → Facility → Provenance
provenance_of true (some scraped) base = scraped.provenance
provenance_of true none base = base.provenance
provenance_of false _ base = base.provenance

abbrev basin_notes : String → List String → List String
basin_notes name [] = []
basin_notes name (note ∷ notes) = join "" (name ∷ ": " ∷ note ∷ []) ∷ basin_notes name notes

-- `by_source.get(CURATED) or by_source[SCRAPED]`; `none` is a KeyError.
abbrev pub base_of : BySource → Option Facility
base_of by_source = if is_none by_source.curated then by_source.scraped else by_source.curated

unfoldable pub fold_from : BySource → Facility → MergedBasins → Facility × List String
unfolding fold_aspect is_known_admission join
fold_from by_source base merged =
    let (admission, n1) =
      fold_aspect "admission" is_known_admission (λ (f : Facility). f.admission) by_source base in
    let (closures, n2) =
      fold_aspect "closures" nonempty (λ (f : Facility). f.closures) by_source base in
    let (notices, n3) =
      fold_aspect "notices" nonempty (λ (f : Facility). f.notices) by_source base in
    let (geo, n4) = fold_aspect "geo" is_given (λ (f : Facility). f.geo) by_source base in
    let (features, n5) =
      fold_aspect "features" nonempty (λ (f : Facility). f.features) by_source base in
    let (lockers, n6) =
      fold_aspect "lockers" nonempty (λ (f : Facility). f.lockers) by_source base in
    let (rentals, n7) =
      fold_aspect "rentals" nonempty (λ (f : Facility). f.rentals) by_source base in
    let (policy, n8) =
      fold_aspect "public_holiday_policy" is_given (λ (f : Facility). f.public_holiday_policy)
        by_source base in
    let (last, n9) =
      fold_aspect "last_admission_before" is_given (λ (f : Facility). f.last_admission_before)
        by_source base in
    let (season, n10) =
      fold_aspect "operating_season" is_given (λ (f : Facility). f.operating_season) by_source
        base in
    (
      record {
        identity = base.identity;
        address = base.address;
        provenance = provenance_of merged.scraped_schedule by_source.scraped base;
        basins = merged.basins;
        geo = geo;
        closures = closures;
        public_holiday_policy = policy;
        operating_season = season;
        admission = admission;
        notices = notices;
        features = features;
        lockers = lockers;
        rentals = rentals;
        last_admission_before = last;
      },
      n1
          ++ n2
          ++ n3
          ++ n4
          ++ n5
          ++ n6
          ++ n7
          ++ n8
          ++ n9
          ++ n10
          ++ basin_notes base.identity.name merged.note,
    )

-- `_fold`
unfoldable pub fold : BySource → Option (Facility × List String)
unfolding fold_from merge_basins
fold by_source = do
  base ← base_of by_source
  merged ← merge_basins by_source
  some (fold_from by_source base merged)

pub record Composition : Type 0 where
  pub facilities : List Facility
  pub notes : List String

-- `{str(f.identity.facility_id): f for f in facilities}`
unfoldable pub facilities_by_id :
    List (String × Facility) → List Facility → List (String × Facility)
unfolding put
facilities_by_id d [] = d
facilities_by_id d (f ∷ fs) = facilities_by_id (put f.identity.facility_id f d) fs

abbrev pub key_of : String × Facility → String
key_of (key, _) = key

-- `sorted(curated.keys() | scraped.keys())`
unfoldable pub pool_keys : List (String × Facility) → List (String × Facility) → List String
unfolding sort str_le
pool_keys curated scraped =
    sort str_le
      (map key_of curated ++ keep (λ key. is_none (lookup key curated)) (map key_of scraped))

-- The loop over the keys.
unfoldable pub fold_pools :
    List (String × Facility) → List (String × Facility) → List String → Option Composition
unfolding fold lookup
fold_pools curated scraped [] = some (record { facilities = []; notes = [] })
fold_pools curated scraped (key ∷ keys) = do
  (merged, pool_notes) ←
      fold (record { curated = lookup key curated; scraped = lookup key scraped })
  rest ← fold_pools curated scraped keys
  some (record { facilities = merged ∷ rest.facilities; notes = pool_notes ++ rest.notes })

unfoldable pub compose_facilities : List Facility → List Facility → Option Composition
unfolding facilities_by_id pool_keys fold_pools
compose_facilities curated scraped =
    let curated_by_id = facilities_by_id [] curated in
    let scraped_by_id = facilities_by_id [] scraped in
    fold_pools curated_by_id scraped_by_id (pool_keys curated_by_id scraped_by_id)

abbrev scraped_one : String × ScrapedAspects → Facility
scraped_one (pool_id, aspects) = scraped_facility pool_id aspects

unfoldable pub compose : List Facility → List (String × ScrapedAspects) → Option Composition
unfolding compose_facilities scraped_facility
compose curated scraped = compose_facilities curated (map scraped_one scraped)
