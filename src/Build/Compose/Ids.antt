-- ===== src/Build/Compose/Ids.antt =====
-- One facility per pool, ordered by id (`compose_facilities` of src/swimzh/build/compose.py).
use swimming_in_zurich.Base.{
  true, false, keep, is_none, Option, none, some, List, [], ◌∷◌, ◌++◌, String, str_eq, str_eq_iff,
  map, ◌≡◌, ◌↔◌, refl, sym, subst, ◌⊎◌, inl, inr, arith, In, In-keep, In-keep_of, In-append,
  In-append_left, In-append_right, Bool-cases,
}
use swimming_in_zurich.Base.Maybe.{Any, Any-Given, Given, >>=-Given}
use swimming_in_zurich.Base.Distinct.{Distinct, sort-Distinct, append-Distinct, keep-Distinct}
use swimming_in_zurich.Base.Sort.{Ascending, In-sort, In-sort_of, sort-Ascending}
use swimming_in_zurich.Text.{str_le}
use swimming_in_zurich.Text.Order.{str_le_total, str_le_trans}
use swimming_in_zurich.Closure.{lookup}
use swimming_in_zurich.Registry.{put}
use swimming_in_zurich.Registry.Index.{lookup-put}
use swimming_in_zurich.Models.{Facility}
use swimming_in_zurich.Build.Bindings.{BySource, merge_basins}
use swimming_in_zurich.Build.Compose.{
  base_of, fold_from, fold, Composition, facilities_by_id, key_of, pool_keys, fold_pools,
  compose_facilities,
}

abbrev pub id_of : Facility → String
id_of f = f.identity.facility_id

-- The dict `facilities_by_id`: each facility under its own id, no key twice.
abbrev keys : List (String × Facility) → List String
keys d = map key_of d

In-keys-put :
    (k key : String) (f : Facility) (d : List (String × Facility))
    → In k (keys (put key f d)) ↔ ((k ≡ key) ⊎ In k (keys d))
unfolding put
In-keys-put k key f [] = (λ m. m, λ m. m)
In-keys-put k key f ((j, g) ∷ rest) = ground (arith, str_eq_iff key j, In-keys-put k key f rest)

put-Distinct :
    (key : String) (f : Facility) (d : List (String × Facility))
    → Distinct (keys d)
    → Distinct (keys (put key f d))
unfolding put
put-Distinct key f [] h = (λ m. m, tt)
put-Distinct key f ((j, g) ∷ rest) h = elim (Bool-cases (str_eq key j)) [
  | inl e ↦ rw e h
  | inr e ↦ rw e (
    λ m. elim ((In-keys-put j key f rest).0 m) [
      | inl same ↦ absurd (cc ((str_eq_iff key j).1 (sym same), e))
      | inr r ↦ h.0 r
    ],
    put-Distinct key f rest h.1,
  )
]

abbrev Own : List (String × Facility) → Type 0
Own d = (k : String) → Given (λ f. id_of f ≡ k) (lookup k d)

put-Own : (f : Facility) (d : List (String × Facility)) → Own d → Own (put (id_of f) f d)
put-Own f d own k =
    subst (Given (λ (x : Facility). id_of x ≡ k)) (sym (lookup-put k (id_of f) f d))
      (elim (Bool-cases (str_eq k (id_of f))) [
        | inl e ↦ rw e (sym ((str_eq_iff k (id_of f)).0 e))
        | inr e ↦ rw e (own k)
      ])

In-keys-by_id :
    (fs : List Facility) (k : String) (d : List (String × Facility))
    → In k (keys (facilities_by_id d fs)) ↔ (In k (keys d) ⊎ In k (map id_of fs))
unfolding facilities_by_id
In-keys-by_id [] k d = (λ m. inl m, λ m. elim m [ inl a ↦ a | inr b ↦ absurd b ])
In-keys-by_id (f ∷ fs) k d =
    ground (arith, In-keys-by_id fs k (put (id_of f) f d), In-keys-put k (id_of f) f d)

facilities_by_id-Distinct :
    (fs : List Facility) (d : List (String × Facility))
    → Distinct (keys d)
    → Distinct (keys (facilities_by_id d fs))
unfolding facilities_by_id
facilities_by_id-Distinct [] d h = h
facilities_by_id-Distinct (f ∷ fs) d h =
    facilities_by_id-Distinct fs _ (put-Distinct (id_of f) f d h)

facilities_by_id-Own :
    (fs : List Facility) (d : List (String × Facility)) → Own d → Own (facilities_by_id d fs)
unfolding facilities_by_id
facilities_by_id-Own [] d h = h
facilities_by_id-Own (f ∷ fs) d h = facilities_by_id-Own fs _ (put-Own f d h)

lookup-In :
    (k : String) (d : List (String × Facility)) → is_none (lookup k d) ≡ false → In k (keys d)
unfolding lookup
lookup-In k [] h = absurd (cc h)
lookup-In k ((j, f) ∷ rest) h = ground (arith, str_eq_iff k j, lookup-In k rest)

lookup-fresh :
    (k : String) (d : List (String × Facility)) → is_none (lookup k d) ≡ true → In k (keys d) → ⊥
unfolding lookup
lookup-fresh k [] h m = m
lookup-fresh k ((j, f) ∷ rest) h m = ground (arith, str_eq_iff k j, lookup-fresh k rest)

abbrev Named : String → Facility × List String → Type 0
Named k (f, _) = id_of f ≡ k

abbrev Lists : List String → Composition → Type 0
Lists ks comp = map id_of comp.facilities ≡ ks

module _ (c s : List (String × Facility)) where
  -- The keys of `s` that `c` has not.
  abbrev others : List String
  others = keep (λ k. is_none (lookup k c)) (keys s)

  In-pool_keys : (k : String) → In k (pool_keys c s) ↔ (In k (keys c) ⊎ In k (keys s))
  unfolding pool_keys
  In-pool_keys k = (to, from)
    where
      to : In k (pool_keys c s) → In k (keys c) ⊎ In k (keys s)
      to m = elim (In-append k (keys c) others (In-sort str_le k (keys c ++ others) m)) [
        | inl a ↦ inl a
        | inr b ↦ inr (In-keep (λ j. is_none (lookup j c)) k (keys s) b).0
      ]

      either : In k (keys c) ⊎ In k (keys s) → In k (keys c ++ others)
      either (inl a) = In-append_left k (keys c) others a
      either (inr b) = elim (Bool-cases (is_none (lookup k c))) [
        | inl e ↦
            In-append_right k (keys c) others
              (In-keep_of (λ j. is_none (lookup j c)) k (keys s) b e)
        | inr e ↦ In-append_left k (keys c) others (lookup-In k c e)
      ]

      from : In k (keys c) ⊎ In k (keys s) → In k (pool_keys c s)
      from m = In-sort_of str_le k (keys c ++ others) (either m)

  pool_keys-Ascending : Ascending str_le (pool_keys c s)
  unfolding pool_keys
  pool_keys-Ascending = sort-Ascending str_le str_le_total str_le_trans (keys c ++ others)

  pool_keys-Distinct : Distinct (keys c) → Distinct (keys s) → Distinct (pool_keys c s)
  unfolding pool_keys
  pool_keys-Distinct d e = sort-Distinct (keys c ++ others) (
      append-Distinct (keys c) others d (keep-Distinct (λ k. is_none (lookup k c)) (keys s) e)
        (λ k m n. lookup-fresh k c (In-keep (λ j. is_none (lookup j c)) k (keys s) n).1 m))

  base_of-Own :
      (k : String) (a b : Option Facility)
      → Given (λ f. id_of f ≡ k) a
      → Given (λ f. id_of f ≡ k) b
      → Given (λ f. id_of f ≡ k) (base_of (record { curated = a; scraped = b }))
  base_of-Own k none b h g = g
  base_of-Own k (some a) b h g = h

  fold-Named :
      (k : String)
      → Own c
      → Own s
      → Given (Named k) (fold (record { curated = lookup k c; scraped = lookup k s }))
  unfolding fold fold_from
  fold-Named k own_c own_s =
      >>=-Given (λ (f : Facility). id_of f ≡ k) (Named k) (base_of by_source) _
        (base_of-Own k (lookup k c) (lookup k s) (own_c k) (own_s k))
        λ base e.
          >>=-Given Any (Named k) (merge_basins by_source) _ (Any-Given (merge_basins by_source))
            λ merged _. e
    where
      by_source : BySource
      by_source = record { curated = lookup k c; scraped = lookup k s }

  fold_pools-Lists : (ks : List String) → Own c → Own s → Given (Lists ks) (fold_pools c s ks)
  unfolding fold_pools
  fold_pools-Lists [] own_c own_s = refl
  fold_pools-Lists (k ∷ ks) own_c own_s =
      >>=-Given (Named k) (Lists (k ∷ ks))
        (fold (record { curated = lookup k c; scraped = lookup k s })) _ (fold-Named k own_c own_s)
        λ one e.
          >>=-Given (Lists ks) (Lists (k ∷ ks)) (fold_pools c s ks) _
            (fold_pools-Lists ks own_c own_s) λ rest same. cong_cons e same
    where
      cong_cons : {a b : String} {xs ys : List String} → a ≡ b → xs ≡ ys → (a ∷ xs) ≡ (b ∷ ys)
      cong_cons h g = cc

-- When facilities are composed, the ids of the result ascend and none is there twice, and they are
-- exactly the ids of the curated and of the scraped facilities: one facility per pool, none lost.
pub compose_facilities_ids :
    (curated scraped : List Facility) (comp : Composition)
    → compose_facilities curated scraped ≡ some comp
    → let ids = map id_of comp.facilities in
      Ascending str_le ids
      × Distinct ids
      × ((k : String) → In k ids ↔ (In k (map id_of curated) ⊎ In k (map id_of scraped)))
unfolding compose_facilities lookup
compose_facilities_ids curated scraped comp h = subst Good (sym same) (ascending, distinct, exact)
  where
    Good : List String → Type 0
    Good ids =
        Ascending str_le ids
        × Distinct ids
        × ((k : String) → In k ids ↔ (In k (map id_of curated) ⊎ In k (map id_of scraped)))

    c : List (String × Facility)
    c = facilities_by_id [] curated

    s : List (String × Facility)
    s = facilities_by_id [] scraped

    same : map id_of comp.facilities ≡ pool_keys c s
    same = subst (Given (Lists (pool_keys c s))) h (
        fold_pools-Lists c s (pool_keys c s) (facilities_by_id-Own curated [] (λ k. tt))
          (facilities_by_id-Own scraped [] (λ k. tt)))

    ascending : Ascending str_le (pool_keys c s)
    ascending = pool_keys-Ascending c s

    distinct : Distinct (pool_keys c s)
    distinct =
        pool_keys-Distinct c s (facilities_by_id-Distinct curated [] tt)
          (facilities_by_id-Distinct scraped [] tt)

    exact :
        (k : String) → In k (pool_keys c s) ↔ (In k (map id_of curated) ⊎ In k (map id_of scraped))
    exact k =
        ground (arith, In-pool_keys c s k, In-keys-by_id curated k [], In-keys-by_id scraped k [])
