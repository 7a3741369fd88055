-- ===== src/Build/Compose/Basins.antt =====
-- No declared lane sheet is lost when the scraped timetable wins (`_carry_bindings` of
-- src/swimzh/build/compose.py).
use swimming_in_zurich.Base.{
  Bool, true, false, any, keep, nonempty, Option, none, some, List, [], ◌∷◌, ◌++◌, String, str_eq,
  str_eq_iff, map, ◌≡◌, refl, sym, subst, ◌∙◌, ◌⊎◌, inl, inr, arith, In, In-keep, In-keep_of,
  In-append, In-append_left, In-append_right, In-map, In-map_of, In-of_any, Bool-cases,
}
use swimming_in_zurich.Base.Maybe.{Given}
use swimming_in_zurich.Models.{LanePlanSource, Basin}
use swimming_in_zurich.Build.Bindings.{
  has_schedule, url_of, urls_of, is_bound, bound_basins, with_rules, carry, carry_bindings,
}

-- A basin of the list declares the url.
abbrev pub Declared : String → List Basin → Type 0
Declared url bs =
    (b : Basin) × In b bs × ((s : LanePlanSource) × (b.lane_plan_source ≡ some s) × (s.url ≡ url))

url_of-Source :
    (url : String) (o : Option LanePlanSource)
    → In url (url_of o)
    → (s : LanePlanSource) × (o ≡ some s) × (s.url ≡ url)
url_of-Source url none m = absurd m
url_of-Source url (some s) (inl e) = (s, refl, sym e)
url_of-Source url (some s) (inr m) = absurd m

urls_of-Declared : (url : String) (bs : List Basin) → In url (urls_of bs) → Declared url bs
unfolding urls_of
urls_of-Declared url [] m = absurd m
urls_of-Declared url (b ∷ bs) m = elim (In-append url (url_of b.lane_plan_source) (urls_of bs) m) [
  | inl here ↦ (b, inl refl, url_of-Source url b.lane_plan_source here)
  | inr there ↦ let (c, listed, source) = urls_of-Declared url bs there in (c, inr listed, source)
]

-- A curated basin whose url no scraped basin declares is bound.
In-bound_basins :
    (urls : List String) (bs : List Basin) (b : Basin) (s : LanePlanSource)
    → In b bs
    → b.lane_plan_source ≡ some s
    → any (str_eq s.url) urls ≡ false
    → In b (bound_basins urls bs)
unfolding bound_basins
In-bound_basins urls bs b s m e h =
    In-keep_of (λ (x : Basin). is_bound urls x.lane_plan_source) b bs m (rw (e, h) refl)

-- A curated basin with the timetable of a scraped basin that has one.
abbrev pub Stamped : List Basin → List Basin → Basin → Type 0
Stamped scraped curated b =
    (c : Basin) × In c curated
    × ((t : Basin) × In t scraped × (nonempty t.rules ≡ true) × (b ≡ with_rules t.rules c))

abbrev pub Carried : List Basin → List Basin → List Basin → Type 0
Carried scraped curated merged =
    ((b : Basin) → In b scraped → In b merged)
    × ((url : String) → Declared url curated → Declared url merged)
    × ((b : Basin) → In b merged → In b scraped ⊎ Stamped scraped curated b)

bound-Declared :
    (scraped curated : List Basin) (t : Basin) (url : String)
    → Declared url curated
    → Declared url (scraped ++ map (with_rules t.rules) (bound_basins (urls_of scraped) curated))
bound-Declared scraped curated t url (c, m, (s, e, same)) =
    elim (Bool-cases (any (str_eq s.url) (urls_of scraped))) [
      | inl h ↦
          let (u, inside, eq) = In-of_any (str_eq s.url) (urls_of scraped) h in
          let (b, listed, source) = urls_of-Declared u scraped inside in
          (
            b,
            In-append_left b scraped timetabled listed,
            (source.0, source.1, source.2 ∙ sym ((str_eq_iff s.url u).0 eq) ∙ same),
          )
      | inr h ↦ (
        with_rules t.rules c,
        In-append_right (with_rules t.rules c) scraped timetabled (
            In-map_of (with_rules t.rules) c _
              (In-bound_basins (urls_of scraped) curated c s m e h)),
        (s, e, same),
      )
    ]
  where
    timetabled : List Basin
    timetabled = map (with_rules t.rules) (bound_basins (urls_of scraped) curated)

bound-Stamped :
    (scraped curated : List Basin) (t b : Basin)
    → In t scraped
    → nonempty t.rules ≡ true
    → In b (scraped ++ map (with_rules t.rules) (bound_basins (urls_of scraped) curated))
    → In b scraped ⊎ Stamped scraped curated b
unfolding bound_basins
bound-Stamped scraped curated t b listed bears m =
    elim (In-append b scraped (map (with_rules t.rules) (bound_basins (urls_of scraped) curated))
      m) [
        | inl here ↦ inl here
        | inr there ↦
            let (c, inside, e) =
              In-map (with_rules t.rules) b (bound_basins (urls_of scraped) curated) there in
            inr (
              c,
              (In-keep (λ (x : Basin). is_bound (urls_of scraped) x.lane_plan_source) c curated
                  inside).0,
              (t, listed, bears, e),
            )
      ]

carry-Carried :
    (scraped curated bearing : List Basin)
    → ((t : Basin) → In t bearing → In t scraped × (nonempty t.rules ≡ true))
    → nonempty bearing ≡ true
    → Given
        (Carried scraped curated)
        (carry scraped (bound_basins (urls_of scraped) curated) bearing)
carry-Carried scraped curated [] bears h = absurd (cc h)
carry-Carried scraped curated (t ∷ []) bears h =
    let (listed, has) = bears t (inl refl) in
    (
      λ b m. In-append_left b scraped _ m,
      bound-Declared scraped curated t,
      λ b m. bound-Stamped scraped curated t b listed has m,
    )
carry-Carried scraped curated (t ∷ u ∷ rest) bears h = tt

keep-nonempty :
    {A : Type 0} (p : A → Bool) (xs : List A) → any p xs ≡ true → nonempty (keep p xs) ≡ true
keep-nonempty p [] h = absurd (cc h)
keep-nonempty p (x ∷ xs) h = ground (arith, keep-nonempty p xs)

-- When a scraped timetable wins and the build goes on, every scraped basin is kept, every sheet that a
-- curated basin declares is still declared by a basin, and each further basin is a curated one that
-- is unchanged but for its rules, which are those of a scraped basin that has rules.
pub carry_bindings-Carried :
    (scraped curated merged : List Basin)
    → has_schedule scraped ≡ true
    → carry_bindings scraped curated ≡ some merged
    → Carried scraped curated merged
unfolding has_schedule carry_bindings
carry_bindings-Carried scraped curated merged h e = subst (Given (Carried scraped curated)) e (
    carry-Carried scraped curated (keep bears scraped) (λ t m. In-keep bears t scraped m)
      (keep-nonempty bears scraped h))
  where
    bears : Basin → Bool
    bears b = nonempty b.rules
