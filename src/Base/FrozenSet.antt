-- ===== src/Base/FrozenSet.antt =====
-- Finite sets of numbers (`set`, `frozenset` of lanes or times) as strictly ascending lists, so
-- that `sorted(s)` is the list, `len(s)` its length and equal sets are equal lists.
use Prim.Native.Nat.{ℕ, ◌<◌}
use mathlib.Core.Path.{◌≡◌, refl}
use mathlib.Core.Bool.{Bool, true, false, ◌||◌}
use mathlib.Core.List.{List, [], ◌∷◌}
use native.Mathlib.Omega.{arith}
use swimming_in_zurich.Base.Tests.{if◌then◌else◌, ltb, ◌==◌}

abbrev pub FrozenSet : Type 0
FrozenSet = List ℕ

-- `x in s`
unfoldable pub contains : List ℕ → ℕ → Bool
contains [] y = false
contains (x ∷ xs) y = (x == y) || contains xs y

-- `s.add(x)`
unfoldable pub add : ℕ → FrozenSet → FrozenSet
add x [] = x ∷ []
add x (y ∷ ys) = if ltb x y then x ∷ y ∷ ys else if x == y then y ∷ ys else y ∷ add x ys

-- `s | t`; `t` may be any list of elements.
unfoldable pub union : FrozenSet → List ℕ → FrozenSet
unfolding add
union s [] = s
union s (x ∷ xs) = add x (union s xs)

-- Above a bound, and strictly ascending.
abbrev pub Above : ℕ → List ℕ → Type 0
Above b [] = Unit
Above b (x ∷ xs) = (b < x) × Above x xs

abbrev pub IsCanonical : List ℕ → Type 0
IsCanonical [] = Unit
IsCanonical (x ∷ xs) = Above x xs

add-Above : (b x : ℕ) (s : List ℕ) → b < x → Above b s → Above b (add x s)
unfolding add
add-Above b x [] h a = (h, tt)
add-Above b x (y ∷ ys) h a = ground (arith, add-Above y x ys)

pub add-IsCanonical : (x : ℕ) (s : List ℕ) → IsCanonical s → IsCanonical (add x s)
unfolding add
add-IsCanonical x [] a = tt
add-IsCanonical x (y ∷ ys) a = ground (arith, add-Above y x ys)

pub union-IsCanonical : (s xs : List ℕ) → IsCanonical s → IsCanonical (union s xs)
unfolding union
union-IsCanonical s [] a = a
union-IsCanonical s (x ∷ xs) a = add-IsCanonical x (union s xs) (union-IsCanonical s xs a)

pub contains-add : (x : ℕ) (s : List ℕ) (y : ℕ) → contains (add x s) y ≡ ((x == y) || contains s y)
unfolding contains add
contains-add x [] y = refl
contains-add x (z ∷ zs) y = ground (arith, contains-add x zs y)

pub contains-union :
    (s xs : List ℕ) (y : ℕ) → contains (union s xs) y ≡ (contains s y || contains xs y)
unfolding contains union
contains-union s [] y = ground arith
contains-union s (x ∷ xs) y = ground (arith, contains-add x (union s xs) y, contains-union s xs y)

pub contains-Above : (b y : ℕ) (s : List ℕ) → Above b s → contains s y ≡ true → b < y
unfolding contains
contains-Above b y [] a h = absurd (ground arith)
contains-Above b y (x ∷ xs) a h = ground (arith, contains-Above x y xs)

tail_IsCanonical : (b : ℕ) (s : List ℕ) → Above b s → IsCanonical s
tail_IsCanonical b [] a = tt
tail_IsCanonical b (x ∷ xs) a = a.1

-- Two sets with the same elements are the same list.
pub IsCanonical-ext :
    (s t : List ℕ) → IsCanonical s → IsCanonical t → ((y : ℕ) → contains s y ≡ contains t y) → s ≡ t
unfolding contains
IsCanonical-ext [] [] a b h = refl
IsCanonical-ext [] (y ∷ ys) a b h = absurd (ground (arith, h y))
IsCanonical-ext (x ∷ xs) [] a b h = absurd (ground (arith, h x))
IsCanonical-ext (x ∷ xs) (y ∷ ys) a b h =
    let first : x ≡ y =
      ground (arith, h x, h y, contains-Above x y xs a, contains-Above y x ys b) in
    cc (
      first,
      IsCanonical-ext xs ys (tail_IsCanonical x xs a) (tail_IsCanonical y ys b)
          (λ z. tails z first),
    )
  where
    tails : (z : ℕ) → x ≡ y → contains xs z ≡ contains ys z
    tails z e = ground (arith, h z, contains-Above x z xs a, contains-Above y z ys b)
