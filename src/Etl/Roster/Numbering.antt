-- ===== src/Etl/Roster/Numbering.antt =====
-- The ids of the catalog (`build_catalog` of src/swimzh/etl/catalog.py).
use swimming_in_zurich.Base.{
  ℕ, zero, suc, ◌==◌, false, str_append, ◌+◌, if◌then◌else◌, List, [], ◌∷◌, String, str_eq,
  str_eq_iff, map, ◌≡◌, refl, ap, ◌∙◌, inl, inr, arith, Bool-cases,
}
use swimming_in_zurich.Base.Count.{cons_cong}
use swimming_in_zurich.Text.{decimal}
use swimming_in_zurich.Closure.{lookup}
use swimming_in_zurich.Registry.{put}
use swimming_in_zurich.Registry.Index.{lookup-put}
use swimming_in_zurich.Catalog.{PoolCatalogEntry}
use swimming_in_zurich.Catalog.Slug.{slug}
use swimming_in_zurich.Etl.Roster.{GeoPool, count_of, suffixed, entries_from, build_catalog}

-- How often a slug occurs.
abbrev pub occurrences : String → List String → ℕ
occurrences base [] = 0
occurrences base (b ∷ bs) = if str_eq base b then suc (occurrences base bs) else occurrences base bs

-- The bare slug of the first pool that has it, and then the slug, a dash and the ordinal.
abbrev pub ordinal_id : String → ℕ → String
ordinal_id base n = if n == 0 then base else str_append base (str_append "-" (decimal (n + 1)))

suffixed-ordinal : (base : String) (n : ℕ) → suffixed base n ≡ ordinal_id base n
unfolding suffixed
suffixed-ordinal base zero = refl
suffixed-ordinal base (suc n) =
    let e : suc (suc n) ≡ suc n + 1 = omega arith in
    let later : (suc n == 0) ≡ false = ground arith in
    rw later (ap (λ (k : ℕ). str_append base (str_append "-" (decimal k))) e)

-- Each pool numbered by the earlier ones that have its slug.
abbrev pub numbered : (String → String) → List String → List GeoPool → List String
numbered slug_of earlier [] = []
numbered slug_of earlier (pool ∷ pools) =
    ordinal_id (slug_of pool.name) (occurrences (slug_of pool.name) earlier)
    ∷ numbered slug_of (slug_of pool.name ∷ earlier) pools

-- The counts of the code are the occurrences.
abbrev Counts : List (String × ℕ) → List String → Type 0
Counts seen earlier = (base : String) → count_of (lookup base seen) ≡ occurrences base earlier

put-Counts :
    (seen : List (String × ℕ)) (earlier : List String) (base : String)
    → Counts seen earlier
    → Counts (put base (count_of (lookup base seen) + 1) seen) (base ∷ earlier)
put-Counts seen earlier base h other =
    ap count_of (lookup-put other base (count_of (lookup base seen) + 1) seen)
    ∙ elim (Bool-cases (str_eq other base)) [
      | inl e ↦ rw (e, ← (str_eq_iff other base).0 e, h other) (omega arith)
      | inr e ↦ rw (e, h other) refl
    ]

entries_from-numbered :
    (slug_of : String → String) (pools : List GeoPool) (seen : List (String × ℕ))
    (earlier : List String)
    → Counts seen earlier
    → map (λ (e : PoolCatalogEntry). e.pool_id) (entries_from slug_of pools seen)
      ≡ numbered slug_of earlier pools
unfolding entries_from
entries_from-numbered slug_of [] seen earlier h = refl
entries_from-numbered slug_of (pool ∷ pools) seen earlier h =
    cons_cong
      (suffixed-ordinal (slug_of pool.name) (count_of (lookup (slug_of pool.name) seen))
        ∙ ap (ordinal_id (slug_of pool.name)) (h (slug_of pool.name)))
      (entries_from-numbered slug_of pools _ (slug_of pool.name ∷ earlier)
        (put-Counts seen earlier (slug_of pool.name) h))

-- The ids of the catalog are in order those of the pools: the slug of the name, and from the second
-- pool of a slug on, a dash and the decimal of the number of its occurrence after it.
pub build_catalog-numbered :
    (lower : String → String) (pools : List GeoPool)
    → map (λ (e : PoolCatalogEntry). e.pool_id) (build_catalog lower pools)
      ≡ numbered (slug lower) [] pools
unfolding build_catalog lookup
build_catalog-numbered lower pools = entries_from-numbered (slug lower) pools [] [] (λ base. refl)
