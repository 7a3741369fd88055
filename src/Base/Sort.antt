-- ===== src/Base/Sort.antt =====
-- `sorted` and `list.sort`: a stable sort by a Boolean order on the keys, written as insertion.
use mathlib.Core.Path.{◌≡◌}
use mathlib.Core.Bool.{Bool, true, false}
use mathlib.Core.List.{List, [], ◌∷◌}
use mathlib.Core.Logic.{inl, inr}
use native.Mathlib.Omega.{arith}
use swimming_in_zurich.Base.Tests.{if◌then◌else◌, Bool-cases}
use swimming_in_zurich.Base.Lists.{All, In, All-of_In, All-In, All-mono}

module _ {A : Type 0} (le : A → A → Bool) where
  unfoldable pub insert : A → List A → List A
  insert x [] = x ∷ []
  insert x (y ∷ ys) = if le x y then x ∷ y ∷ ys else y ∷ insert x ys

  -- Equal keys keep their order: an element goes before the ones that it is not above.
  unfoldable pub sort : List A → List A
  unfolding insert
  sort [] = []
  sort (x ∷ xs) = insert x (sort xs)

  -- Each element is at most every later one.
  abbrev pub Ascending : List A → Type 0
  Ascending [] = Unit
  Ascending (x ∷ xs) = All (λ y. le x y ≡ true) xs × Ascending xs

  pub In-insert : (y x : A) (xs : List A) → In y (insert x xs) → In y (x ∷ xs)
  unfolding insert
  In-insert y x [] m = m
  In-insert y x (z ∷ zs) m = ground (arith, In-insert y x zs)

  In-insert_of : (y x : A) (xs : List A) → In y (x ∷ xs) → In y (insert x xs)
  unfolding insert
  In-insert_of y x [] m = m
  In-insert_of y x (z ∷ zs) m = ground (arith, In-insert_of y x zs)

  -- Sorting loses and invents nothing.
  pub In-sort : (y : A) (xs : List A) → In y (sort xs) → In y xs
  unfolding sort
  In-sort y [] m = m
  In-sort y (x ∷ xs) m = elim (In-insert y x (sort xs) m) [
    | inl e ↦ inl e
    | inr r ↦ inr (In-sort y xs r)
  ]

  pub In-sort_of : (y : A) (xs : List A) → In y xs → In y (sort xs)
  unfolding sort
  In-sort_of y [] m = m
  In-sort_of y (x ∷ xs) (inl e) = In-insert_of y x (sort xs) (inl e)
  In-sort_of y (x ∷ xs) (inr m) = In-insert_of y x (sort xs) (inr (In-sort_of y xs m))

  module _ (total : (a b : A) → le a b ≡ false → le b a ≡ true)
      (trans : (a b c : A) → le a b ≡ true → le b c ≡ true → le a c ≡ true) where
    insert-Ascending : (x : A) (xs : List A) → Ascending xs → Ascending (insert x xs)
    unfolding insert
    insert-Ascending x [] h = (tt, tt)
    insert-Ascending x (y ∷ ys) h = elim (Bool-cases (le x y)) [
      | inl e ↦
          rw e
            ((e, All-mono (λ z. le y z ≡ true) (λ z. le x z ≡ true) ys (λ z. trans x y z e) h.0), h)
      | inr e ↦ rw e (
        All-of_In (λ z. le y z ≡ true) (insert x ys)
            (λ z m. below z (total x y e) (In-insert z x ys m)),
        insert-Ascending x ys h.1,
      )
    ]
      where
        below : (z : A) → le y x ≡ true → In z (x ∷ ys) → le y z ≡ true
        below z e (inl i) = rw i e
        below z e (inr m) = All-In (λ w. le y w ≡ true) z ys h.0 m

    pub sort-Ascending : (xs : List A) → Ascending (sort xs)
    unfolding sort
    sort-Ascending [] = tt
    sort-Ascending (x ∷ xs) = insert-Ascending x (sort xs) (sort-Ascending xs)
