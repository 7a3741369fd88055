-- ===== src/Silver/Declared.antt =====
-- Every binding of the url index (src/swimzh/etl/silver.py) is a source that a basin declares.
use swimming_in_zurich.Base.{
  Option, none, some, List, [], ◌∷◌, String, ◌≡◌, refl, inl, inr, In, Option-cases,
}
use swimming_in_zurich.Errors.Chain.{Holds, >>=-Holds}
use swimming_in_zurich.Models.{LanePlanSource, Basin, Facility}
use swimming_in_zurich.Silver.{Binding}
use swimming_in_zurich.Silver.Grouped.{Each, append_at-Each}
use swimming_in_zurich.Silver.Bindings.{
  Index, seen_at, bind_source, bind_basins, bind_facilities, build_url_bindings,
}

-- A basin of the facilities declares the url, with the ids and the section of the binding.
pub record Declares (facilities : List Facility) (url : String) (b : Binding) : Type 0 where
  pub facility : Facility
  pub basin : Basin
  pub is_listed : In facility facilities
  pub is_basin : In basin facility.basins
  pub has_pool : facility.identity.facility_id ≡ b.pool_id
  pub has_basin : basin.basin_id ≡ b.basin_id
  pub declared : basin.lane_plan_source ≡ some (record { url = url; section = b.section })

module _ (repr : String → String) (K : String → Binding → Type 0) where
  abbrev Kept : Index → Type 0
  Kept index = Each K index.bindings

  -- What the sources of a basin have to satisfy.
  abbrev Known : String → Basin → Type 0
  Known pool b =
      (s : LanePlanSource)
      → b.lane_plan_source ≡ some s
      → K s.url (record { pool_id = pool; basin_id = b.basin_id; section = s.section })

  bind_source-Kept :
      (pool basin : String) (source : Option LanePlanSource) (index : Index)
      → ((s : LanePlanSource)
          → source ≡ some s
          → K s.url (record { pool_id = pool; basin_id = basin; section = s.section }))
      → Kept index
      → Holds Kept (bind_source repr pool basin source index)
  unfolding bind_source
  bind_source-Kept pool basin none index known e = e
  bind_source-Kept pool basin (some s) index known e =
      elim (Option-cases (seen_at (s.url, s.section) index.seen)) [
        | inl fresh ↦ rw fresh (append_at-Each K s.url _ index.bindings (known s refl) e)
        | inr (ref, taken) ↦ rw taken tt
      ]

  bind_basins-Kept :
      (pool : String) (basins : List Basin) (index : Index)
      → ((b : Basin) → In b basins → Known pool b)
      → Kept index
      → Holds Kept (bind_basins repr pool basins index)
  unfolding bind_basins
  bind_basins-Kept pool [] index known e = e
  bind_basins-Kept pool (b ∷ bs) index known e =
      >>=-Holds Kept Kept (bind_source repr pool b.basin_id b.lane_plan_source index) _
        (bind_source-Kept pool b.basin_id b.lane_plan_source index (known b (inl refl)) e)
        (λ next. bind_basins-Kept pool bs next (λ c m. known c (inr m)))

  bind_facilities-Kept :
      (facilities : List Facility) (index : Index)
      → ((f : Facility) (b : Basin)
          → In f facilities
          → In b f.basins
          → Known f.identity.facility_id b)
      → Kept index
      → Holds Kept (bind_facilities repr facilities index)
  unfolding bind_facilities
  bind_facilities-Kept [] index known e = e
  bind_facilities-Kept (f ∷ fs) index known e =
      >>=-Holds Kept Kept (bind_basins repr f.identity.facility_id f.basins index) _
        (bind_basins-Kept f.identity.facility_id f.basins index (λ b. known f b (inl refl)) e)
        (λ next. bind_facilities-Kept fs next (λ g b m. known g b (inr m)))

pub build_url_bindings-Declares :
    (repr : String → String) (facilities : List Facility)
    → Holds (Each (Declares facilities)) (build_url_bindings repr facilities)
unfolding build_url_bindings
build_url_bindings-Declares repr facilities =
    >>=-Holds (Kept repr (Declares facilities)) (Each (Declares facilities))
      (bind_facilities repr facilities (record { bindings = []; seen = [] })) _
      (bind_facilities-Kept repr (Declares facilities) facilities
        (record { bindings = []; seen = [] }) declares tt)
      (λ index e. e)
  where
    declares :
        (f : Facility) (b : Basin)
        → In f facilities
        → In b f.basins
        → Known repr (Declares facilities) f.identity.facility_id b
    declares f b listed inside s e = record {
      facility = f;
      basin = b;
      is_listed = listed;
      is_basin = inside;
      has_pool = refl;
      has_basin = refl;
      declared = e;
    }
