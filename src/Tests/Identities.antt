-- ===== src/Tests/Identities.antt =====
-- The theorems of Registry at two pools.
use swimming_in_zurich.Base.{some, none, List, [], ◌∷◌, String, ◌≡◌, refl, ◌↔◌, In}
use swimming_in_zurich.Text.{normalize}
use swimming_in_zurich.Closure.{lookup}
use swimming_in_zurich.Models.{PoolIdentity}
use swimming_in_zurich.Registry.{Registry, names_of, registry, register, get}
use swimming_in_zurich.Registry.Crosswalk.{registry-IsCrosswalk}
use swimming_in_zurich.Tests.Data.{city, paddling, same_case}

tidied : normalize same_case "  Hallenbad   City " ≡ "Hallenbad City"
unfolding normalize
tidied = refl

abbrev pools : List PoolIdentity
pools = city.identity ∷ paddling.identity ∷ []

abbrev crosswalk : Registry
crosswalk = record {
  by_id = ("hallenbad-city", city.identity) ∷ ("planschbecken-a", paddling.identity) ∷ [];
  alias_index = ("Hallenbad City", "hallenbad-city") ∷ ("Planschbecken A", "planschbecken-a") ∷ [];
}

registry_run : registry same_case pools ≡ some crosswalk
unfolding registry register lookup
registry_run = refl

-- The same pool twice.
refused : registry same_case (city.identity ∷ city.identity ∷ []) ≡ none
unfolding registry register lookup
refused = refl

registry-IsCrosswalk_example :
    ((fid : String) (i : PoolIdentity)
      → (get crosswalk fid ≡ some i) ↔ (In i pools × (i.facility_id ≡ fid)))
    × ((i j : PoolIdentity) (a b : String)
        → In i pools
        → In j pools
        → In a (names_of i)
        → In b (names_of j)
        → normalize same_case a ≡ normalize same_case b
        → i ≡ j)
registry-IsCrosswalk_example = registry-IsCrosswalk same_case pools crosswalk registry_run
