-- ===== src/Silver/Bindings.antt =====
-- src/swimzh/etl/silver.py: `build_url_bindings`. The `repr` of a string is the interpreter's.
use swimming_in_zurich.Base.{
  Bool, true, false, ◌&&◌, if◌then◌else◌, Option, none, some, List, [], ◌∷◌, String, str_eq,
}
use swimming_in_zurich.Text.{join}
use swimming_in_zurich.Errors.{Result, ok, err, ProviderError, schema_mismatch}
use swimming_in_zurich.Errors.Chain.{◌>>=◌}
use swimming_in_zurich.Models.{LanePlanSource, Basin, Facility}
use swimming_in_zurich.Silver.{BasinRef, Binding, append_at}

-- `(source.url, source.section)`
abbrev pub SourceKey : Type 0
SourceKey = String × Option String

unfoldable pub section_eq : Option String → Option String → Bool
section_eq none none = true
section_eq (some s) (some t) = str_eq s t
section_eq none (some _) = false
section_eq (some _) none = false

unfoldable pub key_eq : SourceKey → SourceKey → Bool
unfolding section_eq
key_eq (u, s) (v, t) = str_eq u v && section_eq s t

-- `seen.get(key)`
unfoldable pub seen_at : SourceKey → List (SourceKey × BasinRef) → Option BasinRef
unfolding key_eq
seen_at key [] = none
seen_at key ((k, ref) ∷ rest) = if key_eq key k then some ref else seen_at key rest

unfoldable pub repr_section : (String → String) → Option String → String
repr_section repr none = "None"
repr_section repr (some s) = repr s

unfoldable pub repr_ref : (String → String) → BasinRef → String
unfolding join
repr_ref repr (pool, basin) = join "" ("(" ∷ repr pool ∷ ", " ∷ repr basin ∷ ")" ∷ [])

unfoldable pub duplicate_binding :
    (String → String) → LanePlanSource → BasinRef → BasinRef → ProviderError
unfolding join repr_section repr_ref
duplicate_binding repr source existing ref = schema_mismatch "silver" (
    join "" (
      "duplicate lane_plan_source binding (url="
      ∷ repr source.url
      ∷ ", section="
      ∷ repr_section repr source.section
      ∷ ") claimed by basins "
      ∷ repr_ref repr existing
      ∷ " and "
      ∷ repr_ref repr ref
      ∷ []))

-- The two dicts that the loops fill. No key of `seen` is set twice.
pub record Index : Type 0 where
  pub bindings : List (String × List Binding)
  pub seen : List (SourceKey × BasinRef)

abbrev pub declare :
    (String → String)
    → LanePlanSource
    → BasinRef
    → Option BasinRef
    → Index
    → Result Index ProviderError
declare repr source ref (some existing) index = err (duplicate_binding repr source existing ref)
declare repr source ref none index =
    let (pool, basin) = ref in
    ok (record {
      bindings =
          append_at source.url
            (record { pool_id = pool; basin_id = basin; section = source.section }) index.bindings;
      seen = ((source.url, source.section), ref) ∷ index.seen;
    })

-- The body of the loop over the basins.
unfoldable pub bind_source :
    (String → String) → String → String → Option LanePlanSource → Index → Result Index ProviderError
unfolding seen_at append_at
bind_source repr pool basin none index = ok index
bind_source repr pool basin (some source) index =
    declare repr source (pool, basin) (seen_at (source.url, source.section) index.seen) index

unfoldable pub bind_basins :
    (String → String) → String → List Basin → Index → Result Index ProviderError
unfolding bind_source
bind_basins repr pool [] index = ok index
bind_basins repr pool (basin ∷ basins) index = do
  next ← bind_source repr pool basin.basin_id basin.lane_plan_source index
  bind_basins repr pool basins next

unfoldable pub bind_facilities :
    (String → String) → List Facility → Index → Result Index ProviderError
unfolding bind_basins
bind_facilities repr [] index = ok index
bind_facilities repr (facility ∷ facilities) index = do
  next ← bind_basins repr facility.identity.facility_id facility.basins index
  bind_facilities repr facilities next

unfoldable pub build_url_bindings :
    (String → String) → List Facility → Result (List (String × List Binding)) ProviderError
unfolding bind_facilities
build_url_bindings repr facilities = do
  index ← bind_facilities repr facilities (record { bindings = []; seen = [] })
  ok index.bindings
