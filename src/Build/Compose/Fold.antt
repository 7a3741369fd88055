-- ===== src/Build/Compose/Fold.antt =====
-- Curated facts win, aspect by aspect (`_fold` of src/swimzh/build/compose.py).
use swimming_in_zurich.Base.{Bool, nonempty, Option, none, some, List, String, ◌≡◌, refl, subst}
use swimming_in_zurich.Base.Maybe.{Any, Any-Given, Given, >>=-Given}
use swimming_in_zurich.Models.{Facility}
use swimming_in_zurich.Build.Bindings.{BySource, MergedBasins, merge_basins}
use swimming_in_zurich.Build.Compose.{
  supplied, choose, fold_aspect, is_known_admission, is_given, base_of, fold_from, fold,
}

-- What a curated facility supplies is kept, and what only the scraped one supplies is taken.
abbrev pub Prefers : {A : Type 0} → (A → Bool) → (Facility → A) → BySource → Facility → Type 0
Prefers {A} present field by_source f =
    ((a : A) → supplied present field by_source.curated ≡ some a → field f ≡ a)
    × ((a : A)
        → supplied present field by_source.curated ≡ none
        → supplied present field by_source.scraped ≡ some a
        → field f ≡ a)

choose_first : {A : Type 0} (c s : Option A) (base a : A) → c ≡ some a → choose c s base ≡ a
choose_first c s base a h = rw h refl

choose_second :
    {A : Type 0} (c s : Option A) (base a : A) → c ≡ none → s ≡ some a → choose c s base ≡ a
choose_second c s base a h k = rw (h, k) refl

abbrev pub Folded : BySource → Facility → Type 0
Folded by_source f =
    Prefers is_known_admission (λ (x : Facility). x.admission) by_source f
    × Prefers nonempty (λ (x : Facility). x.closures) by_source f
    × Prefers nonempty (λ (x : Facility). x.notices) by_source f
    × Prefers is_given (λ (x : Facility). x.geo) by_source f
    × Prefers nonempty (λ (x : Facility). x.features) by_source f
    × Prefers nonempty (λ (x : Facility). x.lockers) by_source f
    × Prefers nonempty (λ (x : Facility). x.rentals) by_source f
    × Prefers is_given (λ (x : Facility). x.public_holiday_policy) by_source f
    × Prefers is_given (λ (x : Facility). x.last_admission_before) by_source f
    × Prefers is_given (λ (x : Facility). x.operating_season) by_source f

-- A field that is the choice of the two sources' values.
choose-Prefers :
    {A : Type 0} (c s : Option A) (base : A)
    → ((a : A) → c ≡ some a → choose c s base ≡ a)
      × ((a : A) → c ≡ none → s ≡ some a → choose c s base ≡ a)
choose-Prefers c s base = (choose_first c s base, choose_second c s base)

fold_from-Folded :
    (by_source : BySource) (base : Facility) (merged : MergedBasins)
    → Folded by_source (fold_from by_source base merged).0
unfolding fold_from fold_aspect
fold_from-Folded by_source base merged = (
  choose-Prefers _ _ _,
  choose-Prefers _ _ _,
  choose-Prefers _ _ _,
  choose-Prefers _ _ _,
  choose-Prefers _ _ _,
  choose-Prefers _ _ _,
  choose-Prefers _ _ _,
  choose-Prefers _ _ _,
  choose-Prefers _ _ _,
  choose-Prefers _ _ _,
)

-- In a fold each aspect but the basins, whether the admission, the closures, the notices, the place,
-- the features, the lockers, the rentals, the holiday policy, the last admission or the season, is
-- that of the curated facility if it supplies one, and else that of the scraped one if that supplies
-- one: no fact that a source supplies is lost, and no scraped fact overrides a curated one.
pub fold-Folded :
    (by_source : BySource) (f : Facility) (notes : List String)
    → fold by_source ≡ some (f, notes)
    → Folded by_source f
unfolding fold
fold-Folded by_source f notes h = subst (Given Good) h (
    >>=-Given Any Good (base_of by_source) _ (Any-Given (base_of by_source)) λ base _.
      >>=-Given Any Good (merge_basins by_source) _ (Any-Given (merge_basins by_source))
        λ merged _. fold_from-Folded by_source base merged)
  where
    Good : Facility × List String → Type 0
    Good (g, _) = Folded by_source g
