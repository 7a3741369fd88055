-- ===== src/Build/Reconcile.antt =====
-- src/swimzh/build/reconcile.py: references of the providers to pool ids, by look-up. The `repr` of a
-- string is the interpreter's. A dict keyed by a pair is the list of its items.
use swimming_in_zurich.Base.{
  Bool, true, ◌&&◌, if◌then◌else◌, Option, none, some, List, [], ◌∷◌, ◌++◌, String, str_eq,
}
use swimming_in_zurich.Text.{join, normalize}
use swimming_in_zurich.Closure.{lookup}
use swimming_in_zurich.Registry.{put}
use swimming_in_zurich.Errors.{Result, ok, err, ProviderError, schema_mismatch}
pub mod Batch

pub data SourceRef : Type 0 where
  xref : (namespace ext_id : String) → SourceRef
  name : (display : String) → SourceRef

pub record Crosswalk : Type 0 where
  pub xrefs : List ((String × String) × String)
  pub alias : List (String × String)

-- `d.get((a, b))`
unfoldable pub pair_at : String → String → List ((String × String) × String) → Option String
pair_at a b [] = none
pair_at a b (((c, d), v) ∷ rest) = if str_eq a c && str_eq b d then some v else pair_at a b rest

-- `d[(a, b)] = value`
unfoldable pub put_pair :
    String → String → String → List ((String × String) × String) → List ((String × String) × String)
put_pair a b value [] = ((a, b), value) ∷ []
put_pair a b value (((c, d), v) ∷ rest) =
    if str_eq a c && str_eq b d
    then ((c, d), value) ∷ rest
    else ((c, d), v) ∷ put_pair a b value rest

pub data Resolution : Type 0 where
  matched : (pool_id : String) → Resolution
  not_found : (error : ProviderError) → Resolution

unfoldable pub unresolved_xref : (String → String) → String → String → ProviderError
unfolding join
unresolved_xref repr namespace ext_id =
    schema_mismatch "reconcile"
      (join "" ("unresolved xref: namespace=" ∷ repr namespace ∷ " ext_id=" ∷ repr ext_id ∷ []))

unfoldable pub unresolved_name : (String → String) → String → ProviderError
unfolding join
unresolved_name repr display =
    schema_mismatch "reconcile" (join "" ("unresolved name (no alias): " ∷ repr display ∷ []))

-- `if pool_id is None: return _NotFound(error)`
abbrev pub found_or : ProviderError → Option String → Resolution
found_or error none = not_found error
found_or error (some pool_id) = matched pool_id

-- `_classify`
unfoldable pub classify : (String → String) → (String → String) → SourceRef → Crosswalk → Resolution
unfolding pair_at lookup normalize unresolved_xref unresolved_name
classify casefold repr (xref namespace ext_id) crosswalk =
    found_or (unresolved_xref repr namespace ext_id) (pair_at namespace ext_id crosswalk.xrefs)
classify casefold repr (name display) crosswalk =
    found_or (unresolved_name repr display) (lookup (normalize casefold display) crosswalk.alias)

abbrev pub resolution_result : Resolution → Result String ProviderError
resolution_result (matched pool_id) = ok pool_id
resolution_result (not_found error) = err error

unfoldable pub resolve :
    (String → String) → (String → String) → SourceRef → Crosswalk → Result String ProviderError
unfolding classify
resolve casefold repr ref crosswalk = resolution_result (classify casefold repr ref crosswalk)

-- `_ref_label`
unfoldable pub ref_label : SourceRef → String
unfolding join
ref_label (xref namespace ext_id) = join "" (namespace ∷ ":" ∷ ext_id ∷ [])
ref_label (name display) = display

pub record ReconcileOutcome (Payload : Type 0) : Type 0 where
  pub resolved : List (String × Payload)
  pub unresolved : List String

-- The body of the loop of `resolve_all`.
abbrev pub take_extract :
    {P : Type 0} → SourceRef → P → Resolution → ReconcileOutcome P → ReconcileOutcome P
take_extract ref payload (matched pool_id) outcome = record {
  resolved = outcome.resolved ++ ((pool_id, payload) ∷ []);
  unresolved = outcome.unresolved;
}
take_extract ref payload (not_found _) outcome = record {
  resolved = outcome.resolved;
  unresolved = outcome.unresolved ++ (ref_label ref ∷ []);
}

unfoldable pub resolve_each :
    {P : Type 0}
    → (String → String)
    → (String → String)
    → Crosswalk
    → List (SourceRef × P)
    → ReconcileOutcome P
    → ReconcileOutcome P
unfolding classify
resolve_each casefold repr crosswalk [] outcome = outcome
resolve_each casefold repr crosswalk ((ref, payload) ∷ extracts) outcome =
    resolve_each casefold repr crosswalk extracts
      (take_extract ref payload (classify casefold repr ref crosswalk) outcome)

unfoldable pub resolve_all :
    {P : Type 0}
    → (String → String)
    → (String → String)
    → List (SourceRef × P)
    → Crosswalk
    → Result (ReconcileOutcome P) ProviderError
unfolding resolve_each
resolve_all casefold repr extracts crosswalk =
    ok (resolve_each casefold repr crosswalk extracts (record { resolved = []; unresolved = [] }))

unfoldable pub alias_from : List (String × String) → List (String × String) → List (String × String)
unfolding put
alias_from d [] = d
alias_from d ((norm, pool_id) ∷ rows) = alias_from (put norm pool_id d) rows

unfoldable pub xref_from :
    List ((String × String) × String)
    → List ((String × String) × String)
    → List ((String × String) × String)
unfolding put_pair
xref_from d [] = d
xref_from d (((namespace, ext_id), pool_id) ∷ rows) =
    xref_from (put_pair namespace ext_id pool_id d) rows

unfoldable pub crosswalk_from_rows :
    List (String × String) → List ((String × String) × String) → Crosswalk
unfolding alias_from xref_from
crosswalk_from_rows alias_rows xref_rows = record {
  xrefs = xref_from [] xref_rows;
  alias = alias_from [] alias_rows;
}
