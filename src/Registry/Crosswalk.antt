-- ===== src/Registry/Crosswalk.antt =====
-- What the registry (src/swimzh/domain/registry.py) holds once it is built.
use swimming_in_zurich.Base.{
  if◌then◌else◌, Option, none, some, Option-cases, List, [], ◌∷◌, String, str_eq, str_eq_iff, ◌≡◌,
  ◌≢◌, refl, sym, ap, subst, ◌∙◌, ◌⊎◌, inl, inr, ◌↔◌, In, Bool-cases,
}
use swimming_in_zurich.Text.{normalize}
use swimming_in_zurich.Closure.{lookup}
use swimming_in_zurich.Models.{PoolIdentity}
use swimming_in_zurich.Registry.{
  put, Registry, index_aliases, names_of, with_index, register, and_then, register_all, registry,
  get,
}
use swimming_in_zurich.Registry.Index.{lookup-put, Indexed, Extends, index_aliases-Indexed}

-- The registry finds exactly the known identities, each by its id, and its index gives the id of each
-- of them for each of its names.
pub record Serves (casefold : String → String) (Known : PoolIdentity → Type 0) (r : Registry)
    : Type 0 where
  pub found :
      (fid : String) (i : PoolIdentity) → (get r fid ≡ some i) ↔ (Known i × (i.facility_id ≡ fid))
  pub indexed :
      (i : PoolIdentity) → Known i → Indexed casefold r.alias_index (names_of i) i.facility_id

with_index-inversion :
    (ids : List (String × PoolIdentity)) (index : Option (List (String × String))) (next : Registry)
    → with_index ids index ≡ some next
    → (next.by_id ≡ ids) × (index ≡ some next.alias_index)
with_index-inversion ids none next h = absurd (cc h)
with_index-inversion ids (some index) next h =
    (sym (ap (λ (q : Registry). q.by_id) same), ap (λ (q : Registry). some q.alias_index) same)
  where
    same : record { by_id = ids; alias_index = index } ≡ next
    same = cc

register-inversion :
    (casefold : String → String) (x : PoolIdentity) (r next : Registry)
    → register casefold x r ≡ some next
    → (lookup x.facility_id r.by_id ≡ none)
      × (next.by_id ≡ put x.facility_id x r.by_id)
      × (index_aliases casefold x.facility_id (names_of x) r.alias_index ≡ some next.alias_index)
unfolding register
register-inversion casefold x r next h = elim (Option-cases (lookup x.facility_id r.by_id)) [
  | inl e ↦
      let (ids, indexing) = with_index-inversion (put x.facility_id x r.by_id) _ next (rw e at h) in
      (e, ids, indexing)
  | inr (i, e) ↦ absurd (cc (rw e at h))
]

module _ (casefold : String → String) (Known : PoolIdentity → Type 0) (x : PoolIdentity)
    (r next : Registry) (s : Serves casefold Known r) (h : register casefold x r ≡ some next) where
  register-found :
      (fid : String) (i : PoolIdentity)
      → (get next fid ≡ some i) ↔ ((Known i ⊎ (i ≡ x)) × (i.facility_id ≡ fid))
  unfolding get
  register-found fid i =
      let (free, ids, _) = register-inversion casefold x r next h in
      elim (Bool-cases (str_eq fid x.facility_id)) [
        | inl e ↦
            let same : fid ≡ x.facility_id = (str_eq_iff fid x.facility_id).0 e in
            new_id same (ap (λ k. lookup k r.by_id) same ∙ free) (
              ap (λ m. lookup fid m) ids
              ∙ lookup-put fid x.facility_id x r.by_id
              ∙ ap (λ b. if b then some x else lookup fid r.by_id) e)
        | inr e ↦
            other_id (λ k. absurd (cc ((str_eq_iff fid x.facility_id).1 k, e)))
              (ap (λ m. lookup fid m) ids
                ∙ lookup-put fid x.facility_id x r.by_id
                ∙ ap (λ b. if b then some x else lookup fid r.by_id) e)
      ]
    where
      new_id :
          fid ≡ x.facility_id
          → lookup fid r.by_id ≡ none
          → lookup fid next.by_id ≡ some x
          → (lookup fid next.by_id ≡ some i) ↔ ((Known i ⊎ (i ≡ x)) × (i.facility_id ≡ fid))
      new_id same unknown_id got = (to, from)
        where
          to : lookup fid next.by_id ≡ some i → (Known i ⊎ (i ≡ x)) × (i.facility_id ≡ fid)
          to k =
              let e : i ≡ x = cc (got, k) in
              (inr e, ap (λ (q : PoolIdentity). q.facility_id) e ∙ sym same)

          from : (Known i ⊎ (i ≡ x)) × (i.facility_id ≡ fid) → lookup fid next.by_id ≡ some i
          from (inl k, w) = absurd (cc (unknown_id, (s.found fid i).1 (k, w)))
          from (inr e, w) = got ∙ ap some (sym e)

      other_id :
          fid ≢ x.facility_id
          → lookup fid next.by_id ≡ lookup fid r.by_id
          → (lookup fid next.by_id ≡ some i) ↔ ((Known i ⊎ (i ≡ x)) × (i.facility_id ≡ fid))
      other_id differ got = (to, from)
        where
          to : lookup fid next.by_id ≡ some i → (Known i ⊎ (i ≡ x)) × (i.facility_id ≡ fid)
          to k = let (known, w) = (s.found fid i).0 (sym got ∙ k) in (inl known, w)

          from : (Known i ⊎ (i ≡ x)) × (i.facility_id ≡ fid) → lookup fid next.by_id ≡ some i
          from (inl k, w) = got ∙ (s.found fid i).1 (k, w)
          from (inr e, w) = absurd (differ (sym w ∙ ap (λ (q : PoolIdentity). q.facility_id) e))

  register-Serves : Serves casefold (λ i. Known i ⊎ (i ≡ x)) next
  register-Serves =
      let (_, _, indexing) = register-inversion casefold x r next h in
      let (more, new) =
        index_aliases-Indexed casefold x.facility_id (names_of x) r.alias_index next.alias_index
          indexing in
      record { found = register-found; indexed = λ i k. indexed i k more new }
    where
      indexed :
          (i : PoolIdentity)
          → Known i ⊎ (i ≡ x)
          → Extends r.alias_index next.alias_index
          → Indexed casefold next.alias_index (names_of x) x.facility_id
          → Indexed casefold next.alias_index (names_of i) i.facility_id
      indexed i (inl k) more new a m = more (normalize casefold a) i.facility_id (s.indexed i k a m)
      indexed i (inr e) more new a m =
          subst (λ (q : PoolIdentity). Indexed casefold next.alias_index (names_of q) q.facility_id)
            (sym e) new a m

and_then-inversion :
    (o : Option Registry) (next : Registry → Option Registry) (end : Registry)
    → and_then o next ≡ some end
    → (r : Registry) × (o ≡ some r) × (next r ≡ some end)
and_then-inversion none next end h = absurd (cc h)
and_then-inversion (some r) next end h = (r, refl, h)

-- What is known need only be known up to equivalence.
Serves-map :
    (casefold : String → String) (P Q : PoolIdentity → Type 0) (r : Registry)
    → ((i : PoolIdentity) → P i ↔ Q i)
    → Serves casefold P r
    → Serves casefold Q r
Serves-map casefold P Q r e s = record {
  found = λ fid i. (
    λ k. let (known, w) = (s.found fid i).0 k in ((e i).0 known, w),
    λ k. (s.found fid i).1 ((e i).1 k.0, k.1),
  );
  indexed = λ i q. s.indexed i ((e i).1 q);
}

register_all-Serves :
    (casefold : String → String) (Known : PoolIdentity → Type 0) (xs : List PoolIdentity)
    (r end : Registry)
    → Serves casefold Known r
    → register_all casefold xs r ≡ some end
    → Serves casefold (λ i. Known i ⊎ In i xs) end
unfolding register_all
register_all-Serves casefold Known [] r end s h =
    Serves-map casefold Known _ end (λ i. (λ k. inl k, known i))
      (subst (λ (q : Registry). Serves casefold Known q) same s)
  where
    same : r ≡ end
    same = cc

    known : (i : PoolIdentity) → Known i ⊎ ⊥ → Known i
    known i (inl k) = k
    known i (inr m) = absurd m
register_all-Serves casefold Known (x ∷ xs) r end s h =
    let (next, e, rest) =
      and_then-inversion (register casefold x r) (register_all casefold xs) end h in
    Serves-map casefold _ _ end (λ i. (to i, from i))
      (register_all-Serves casefold (λ i. Known i ⊎ (i ≡ x)) xs next end
        (register-Serves casefold Known x r next s e) rest)
  where
    to : (i : PoolIdentity) → (Known i ⊎ (i ≡ x)) ⊎ In i xs → Known i ⊎ In i (x ∷ xs)
    to i (inl (inl k)) = inl k
    to i (inl (inr e)) = inr (inl e)
    to i (inr m) = inr (inr m)

    from : (i : PoolIdentity) → Known i ⊎ In i (x ∷ xs) → (Known i ⊎ (i ≡ x)) ⊎ In i xs
    from i (inl k) = inl (inl k)
    from i (inr (inl e)) = inl (inr e)
    from i (inr (inr m)) = inr m

-- A registry that is built is a crosswalk: it finds an identity by an id exactly if that identity is
-- among those it was built from and has that id, so that none is overwritten; and no two of them
-- share a name or alias, as normalised: identities with a common one are the same.
pub registry-IsCrosswalk :
    (casefold : String → String) (identities : List PoolIdentity) (r : Registry)
    → registry casefold identities ≡ some r
    → ((fid : String) (i : PoolIdentity)
        → (get r fid ≡ some i) ↔ (In i identities × (i.facility_id ≡ fid)))
      × ((i j : PoolIdentity) (a b : String)
          → In i identities
          → In j identities
          → In a (names_of i)
          → In b (names_of j)
          → normalize casefold a ≡ normalize casefold b
          → i ≡ j)
unfolding registry
registry-IsCrosswalk casefold identities r h = (served.found, shared)
  where
    served : Serves casefold (λ i. In i identities) r
    served =
        Serves-map casefold (λ i. ⊥ ⊎ In i identities) _ r (λ i. ((λ k. listed i k), (λ m. inr m)))
          (register_all-Serves casefold (λ i. ⊥) identities
            (record { by_id = []; alias_index = [] }) r nothing h)
      where
        listed : (i : PoolIdentity) → ⊥ ⊎ In i identities → In i identities
        listed i (inl k) = absurd k
        listed i (inr m) = m

        nothing : Serves casefold (λ i. ⊥) (record { by_id = []; alias_index = [] })
        nothing = record {
          found = λ fid i. unfold get lookup in ((λ k. absurd (cc k)), (λ k. absurd k.0));
          indexed = λ i k. absurd k;
        }

    shared :
        (i j : PoolIdentity) (a b : String)
        → In i identities
        → In j identities
        → In a (names_of i)
        → In b (names_of j)
        → normalize casefold a ≡ normalize casefold b
        → i ≡ j
    shared i j a b mi mj ai bj same =
        let first = served.indexed i mi a ai in
        let second = served.indexed j mj b bj in
        let id : i.facility_id ≡ j.facility_id =
          cc (first, ap (λ k. lookup k r.alias_index) same, second) in
        cc (
          (served.found i.facility_id i).1 (mi, refl),
          (served.found i.facility_id j).1 (mj, sym id),
        )
