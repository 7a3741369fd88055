-- ===== src/Build/Reconcile/Batch.antt =====
-- What a batch of extracts becomes (`resolve_all` of src/swimzh/build/reconcile.py).
use swimming_in_zurich.Base.{List, [], ◌∷◌, ◌++◌, String, ◌≡◌, refl, ap, ◌∙◌}
use swimming_in_zurich.Errors.{Result, ok, err, ProviderError}
use swimming_in_zurich.Build.Reconcile.{
  SourceRef, Crosswalk, Resolution, matched, not_found, classify, resolve, ref_label,
  ReconcileOutcome, take_extract, resolve_each, resolve_all,
}

abbrev pub missed_by : SourceRef → Result String ProviderError → List String → List String
missed_by ref (ok _) rest = rest
missed_by ref (err _) rest = ref_label ref ∷ rest

module _ {P : Type 0} (casefold repr : String → String) (crosswalk : Crosswalk) where
  -- The keyed payloads of the extracts that resolve, in order.
  abbrev pub keyed_by :
      SourceRef → P → Result String ProviderError → List (String × P) → List (String × P)
  keyed_by ref payload (ok pool_id) rest = (pool_id, payload) ∷ rest
  keyed_by ref payload (err _) rest = rest

  abbrev pub keyed : List (SourceRef × P) → List (String × P)
  keyed [] = []
  keyed ((ref, payload) ∷ rest) =
      keyed_by ref payload (resolve casefold repr ref crosswalk) (keyed rest)

  -- The labels of those that do not, in order.
  abbrev pub missed : List (SourceRef × P) → List String
  missed [] = []
  missed ((ref, _) ∷ rest) = missed_by ref (resolve casefold repr ref crosswalk) (missed rest)

append_assoc : {A : Type 0} (xs ys zs : List A) → (xs ++ ys) ++ zs ≡ xs ++ (ys ++ zs)
append_assoc [] ys zs = refl
append_assoc (x ∷ xs) ys zs = ap (λ t. x ∷ t) (append_assoc xs ys zs)

append_nil : {A : Type 0} (xs : List A) → xs ++ [] ≡ xs
append_nil [] = refl
append_nil (x ∷ xs) = ap (λ t. x ∷ t) (append_nil xs)

module _ {P : Type 0} (casefold repr : String → String) (crosswalk : Crosswalk) where
  -- The outcome after the extracts, for an outcome before them.
  abbrev then_all : ReconcileOutcome P → List (SourceRef × P) → ReconcileOutcome P
  then_all outcome extracts = record {
    resolved = outcome.resolved ++ keyed casefold repr crosswalk extracts;
    unresolved = outcome.unresolved ++ missed casefold repr crosswalk extracts;
  }

  take_extract-then_all :
      (ref : SourceRef) (payload : P) (r : Resolution) (rest : List (SourceRef × P))
      (outcome : ReconcileOutcome P)
      → classify casefold repr ref crosswalk ≡ r
      → then_all (take_extract ref payload r outcome) rest
        ≡ then_all outcome ((ref, payload) ∷ rest)
  unfolding resolve
  take_extract-then_all ref payload (matched pool_id) rest outcome e =
      rw
        (
          e,
          append_assoc outcome.resolved ((pool_id, payload) ∷ [])
              (keyed casefold repr crosswalk rest),
        )
        refl
  take_extract-then_all ref payload (not_found error) rest outcome e =
      rw
        (
          e,
          append_assoc outcome.unresolved (ref_label ref ∷ [])
              (missed casefold repr crosswalk rest),
        )
        refl

  resolve_each-then_all :
      (extracts : List (SourceRef × P)) (outcome : ReconcileOutcome P)
      → resolve_each casefold repr crosswalk extracts outcome ≡ then_all outcome extracts
  unfolding resolve_each
  resolve_each-then_all [] outcome =
      rw (append_nil outcome.resolved, append_nil outcome.unresolved) refl
  resolve_each-then_all ((ref, payload) ∷ rest) outcome =
      resolve_each-then_all rest
        (take_extract ref payload (classify casefold repr ref crosswalk) outcome)
      ∙ take_extract-then_all ref payload (classify casefold repr ref crosswalk) rest outcome refl

  -- A batch never fails. Its outcome has the payloads of the references that resolve on their own,
  -- each under its pool id, and the labels of the others, both in the order of the extracts.
  pub resolve_all-keyed :
      (extracts : List (SourceRef × P))
      → resolve_all casefold repr extracts crosswalk
        ≡ ok (record {
          resolved = keyed casefold repr crosswalk extracts;
          unresolved = missed casefold repr crosswalk extracts;
        })
  unfolding resolve_all
  resolve_all-keyed extracts = ap ok (resolve_each-then_all extracts _)
