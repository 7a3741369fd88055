-- ===== src/Registry.antt =====
-- src/swimzh/domain/registry.py: the registry of the pools' identities. A dict is the list of its
-- items; `none` is a ValueError.
pub mod Index
pub mod Crosswalk
use swimming_in_zurich.Base.{
  Bool, true, false, if◌then◌else◌, Option, none, some, is_none, List, [], ◌∷◌, String, str_eq,
}
use swimming_in_zurich.Text.{normalize}
use swimming_in_zurich.Closure.{lookup}
use swimming_in_zurich.Models.{PoolIdentity}

-- `d[key] = value`
unfoldable pub put : {A : Type 0} → String → A → List (String × A) → List (String × A)
put key value [] = (key, value) ∷ []
put key value ((k, v) ∷ rest) =
    if str_eq key k then (k, value) ∷ rest else (k, v) ∷ put key value rest

pub record Registry : Type 0 where
  pub by_id : List (String × PoolIdentity)
  pub alias_index : List (String × String)

-- `existing is not None and existing != fid`
unfoldable pub is_taken : Option String → String → Bool
is_taken none fid = false
is_taken (some existing) fid = if str_eq existing fid then false else true

-- The loop over the name and the aliases.
unfoldable pub index_aliases :
    (String → String)
    → String
    → List String
    → List (String × String)
    → Option (List (String × String))
unfolding is_taken put normalize
index_aliases casefold fid [] index = some index
index_aliases casefold fid (alias ∷ aliases) index =
    let key = normalize casefold alias in
    let rest = index_aliases casefold fid aliases (put key fid index) in
    if is_taken (lookup key index) fid then none else rest

-- `(identity.name, *identity.aliases)`
abbrev pub names_of : PoolIdentity → List String
names_of identity = identity.name ∷ identity.aliases

abbrev pub with_index :
    List (String × PoolIdentity) → Option (List (String × String)) → Option Registry
with_index by_id none = none
with_index by_id (some index) = some (record { by_id = by_id; alias_index = index })

-- `_register`
unfoldable pub register : (String → String) → PoolIdentity → Registry → Option Registry
unfolding index_aliases
register casefold identity r =
    let fid = identity.facility_id in
    if is_none (lookup fid r.by_id)
    then with_index (put fid identity r.by_id)
        (index_aliases casefold fid (names_of identity) r.alias_index)
    else none

abbrev pub and_then : Option Registry → (Registry → Option Registry) → Option Registry
and_then none next = none
and_then (some r) next = next r

unfoldable pub register_all : (String → String) → List PoolIdentity → Registry → Option Registry
register_all casefold [] r = some r
register_all casefold (identity ∷ identities) r =
    and_then (register casefold identity r) (register_all casefold identities)

-- `Registry(identities)`
unfoldable pub registry : (String → String) → List PoolIdentity → Option Registry
unfolding register_all
registry casefold identities =
    register_all casefold identities (record { by_id = []; alias_index = [] })

-- `get`
unfoldable pub get : Registry → String → Option PoolIdentity
get r facility_id = lookup facility_id r.by_id
