-- ===== src/Silver.antt =====
-- src/swimzh/etl/silver.py: parsed lane plans joined to the basins that declare their sources. A dict
-- is the list of its items in insertion order.
pub mod Bindings
pub mod Join
pub mod Attach
pub mod Grouped
pub mod Declared
pub mod Origin
pub mod Counts
pub mod Safety
use swimming_in_zurich.Base.{
  ℕ, Bool, true, false, ◌&&◌, if◌then◌else◌, Option, none, some, List, [], ◌∷◌, ◌++◌, String,
  str_eq,
}
use swimming_in_zurich.Models.{LanePlan}

-- providers/belegungsplan.py
pub record ParsedPlan : Type 0 where
  pub basin_hint : String
  pub plan : LanePlan
  pub source_url : String

-- `(pool_id, basin_id)`
abbrev pub BasinRef : Type 0
BasinRef = String × String

pub record Binding : Type 0 where
  pub pool_id : String
  pub basin_id : String
  pub section : Option String

pub record BoundPlan : Type 0 where
  pub pool_id : String
  pub basin_id : String
  pub plan : LanePlan

pub record UnboundPlan : Type 0 where
  pub source_url : String
  pub basin_hint : String
  pub reason : String

pub record UnmatchedSection : Type 0 where
  pub source_url : String
  pub section : String
  pub pool_id : String
  pub basin_id : String

unfoldable pub ref_eq : BasinRef → BasinRef → Bool
ref_eq (a, b) (c, d) = str_eq a c && str_eq b d

-- `d[key].append(x)` of a `defaultdict(list)`.
unfoldable pub append_at :
    {A : Type 0} → String → A → List (String × List A) → List (String × List A)
append_at key x [] = (key, x ∷ []) ∷ []
append_at key x ((k, xs) ∷ rest) =
    if str_eq key k then (k, xs ++ (x ∷ [])) ∷ rest else (k, xs) ∷ append_at key x rest

-- `d.get(key, ())`
unfoldable pub items_at : {A : Type 0} → String → List (String × List A) → List A
items_at key [] = []
items_at key ((k, xs) ∷ rest) = if str_eq key k then xs else items_at key rest
