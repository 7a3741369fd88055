-- ===== src/Base/Lists.antt =====
-- Lists as the program uses tuples and lists: comprehensions, `any`, `all`, `next`, membership.
use Prim.Native.Nat.{ℕ, suc}
use mathlib.Core.Path.{◌≡◌, refl, ap}
use mathlib.Core.Logic.{◌⊎◌, inl, inr}
use mathlib.Core.Bool.{Bool, true, false, ◌&&◌, ◌||◌}
use mathlib.Core.Option.{Option, none, some}
use mathlib.Core.List.{List, [], ◌∷◌, ◌++◌, map}
use native.Mathlib.Omega.{arith}
use swimming_in_zurich.Base.Tests.{if◌then◌else◌, Bool-cases}

module _ {ℓ} {A : Type ℓ} where
  abbrev pub length : List A → ℕ
  length [] = 0
  length (x ∷ xs) = suc (length xs)

  -- `[x for x in xs if p(x)]`
  abbrev pub keep : (A → Bool) → List A → List A
  keep p [] = []
  keep p (x ∷ xs) = if p x then x ∷ keep p xs else keep p xs

  abbrev pub any : (A → Bool) → List A → Bool
  any p [] = false
  any p (x ∷ xs) = p x || any p xs

  abbrev pub all : (A → Bool) → List A → Bool
  all p [] = true
  all p (x ∷ xs) = p x && all p xs

  -- `next((x for x in xs if p(x)), None)`
  abbrev pub find_first : (A → Bool) → List A → Option A
  find_first p [] = none
  find_first p (x ∷ xs) = if p x then some x else find_first p xs

  -- `bool(xs)`
  abbrev pub nonempty : List A → Bool
  nonempty [] = false
  nonempty (_ ∷ _) = true

  -- A predicate at each element.
  abbrev pub All {κ} : (A → Type κ) → List A → Type κ
  All P [] = Unit
  All P (x ∷ xs) = P x × All P xs

module _ {A : Type 0} where
  -- `x` is an element; taken apart into any type, and read by the tactics.
  abbrev pub In : A → List A → Type 0
  In a [] = ⊥
  In a (x ∷ xs) = (a ≡ x) ⊎ In a xs

  pub All-In {κ} : (P : A → Type κ) (x : A) (xs : List A) → All P xs → In x xs → P x
  All-In P x [] h m = absurd m
  All-In P a (x ∷ xs) h (inl e) = rw e h.0
  All-In P a (x ∷ xs) h (inr m) = All-In P a xs h.1 m

  pub All-of_In {κ} : (P : A → Type κ) (xs : List A) → ((x : A) → In x xs → P x) → All P xs
  All-of_In P [] h = tt
  All-of_In P (x ∷ xs) h = (h x (inl refl), All-of_In P xs (λ y m. h y (inr m)))

  pub All-mono {κ μ} :
      (P : A → Type κ) (Q : A → Type μ) (xs : List A) → ((x : A) → P x → Q x) → All P xs → All Q xs
  All-mono P Q [] h a = tt
  All-mono P Q (x ∷ xs) h a = (h x a.0, All-mono P Q xs h a.1)

  pub In-keep : (p : A → Bool) (x : A) (xs : List A) → In x (keep p xs) → In x xs × (p x ≡ true)
  In-keep p x [] m = absurd m
  In-keep p x (y ∷ ys) m = ground (arith, In-keep p x ys)

  pub In-keep_of : (p : A → Bool) (x : A) (xs : List A) → In x xs → p x ≡ true → In x (keep p xs)
  In-keep_of p x [] m h = m
  In-keep_of p x (y ∷ ys) m h = ground (arith, In-keep_of p x ys)

  pub In-append : (x : A) (xs ys : List A) → In x (xs ++ ys) → In x xs ⊎ In x ys
  In-append a [] ys m = inr m
  In-append a (x ∷ xs) ys (inl e) = inl (inl e)
  In-append a (x ∷ xs) ys (inr m) = elim (In-append a xs ys m) [
    | inl a ↦ inl (inr a)
    | inr b ↦ inr b
  ]

  pub In-append_left : (x : A) (xs ys : List A) → In x xs → In x (xs ++ ys)
  In-append_left a [] ys m = absurd m
  In-append_left a (x ∷ xs) ys (inl e) = inl e
  In-append_left a (x ∷ xs) ys (inr m) = inr (In-append_left a xs ys m)

  pub In-append_right : (x : A) (xs ys : List A) → In x ys → In x (xs ++ ys)
  In-append_right a [] ys m = m
  In-append_right a (x ∷ xs) ys m = inr (In-append_right a xs ys m)

  -- `any` finds exactly the elements that pass.
  pub any-of_In : (p : A → Bool) (x : A) (xs : List A) → In x xs → p x ≡ true → any p xs ≡ true
  any-of_In p x [] m h = absurd m
  any-of_In p x (y ∷ ys) m h = ground (arith, any-of_In p x ys)

  pub In-of_any : (p : A → Bool) (xs : List A) → any p xs ≡ true → (x : A) × In x xs × (p x ≡ true)
  In-of_any p [] h = absurd (cc)
  In-of_any p (y ∷ ys) h = elim (Bool-cases (p y)) [
    | inl e ↦ (y, inl refl, e)
    | inr e ↦ let r = In-of_any p ys (rw e at h) in (r.0, inr r.1, r.2)
  ]

  pub find_first-In :
      (p : A → Bool) (x : A) (xs : List A) → find_first p xs ≡ some x → In x xs × (p x ≡ true)
  find_first-In p x [] h = absurd (cc)
  find_first-In p x (y ∷ ys) h = ground (arith, find_first-In p x ys)

  pub find_first-none :
      (p : A → Bool) (x : A) (xs : List A) → find_first p xs ≡ none → In x xs → p x ≡ false
  find_first-none p x [] h m = absurd m
  find_first-none p x (y ∷ ys) h m = ground (arith, find_first-none p x ys)

module _ {A : Type 0} {B : Type 0} where
  pub In-map : (f : A → B) (y : B) (xs : List A) → In y (map f xs) → (x : A) × In x xs × (y ≡ f x)
  In-map f y [] m = absurd m
  In-map f y (x ∷ xs) (inl e) = (x, inl refl, e)
  In-map f y (x ∷ xs) (inr m) = let r = In-map f y xs m in (r.0, inr r.1, r.2)

  pub In-map_of : (f : A → B) (x : A) (xs : List A) → In x xs → In (f x) (map f xs)
  In-map_of f a [] m = absurd m
  In-map_of f a (x ∷ xs) (inl e) = inl (ap f e)
  In-map_of f a (x ∷ xs) (inr m) = inr (In-map_of f a xs m)

module _ {A : Type 0} where
  pub keep-cong :
      (p q : A → Bool) (xs : List A) → ((x : A) → In x xs → p x ≡ q x) → keep p xs ≡ keep q xs
  keep-cong p q [] h = refl
  keep-cong p q (x ∷ xs) h = ground (arith, h x (inl refl), keep-cong p q xs (λ y m. h y (inr m)))

  pub find_first-cong :
      (p q : A → Bool) (xs : List A)
      → ((x : A) → In x xs → p x ≡ q x)
      → find_first p xs ≡ find_first q xs
  find_first-cong p q [] h = refl
  find_first-cong p q (x ∷ xs) h =
      ground (arith, h x (inl refl), find_first-cong p q xs (λ y m. h y (inr m)))
