-- ===== src/Base/Count.antt =====
-- How many elements of a list pass a test, and maps, over appended lists.
use swimming_in_zurich.Base.{
  ℕ, suc, ◌+◌, Bool, List, [], ◌∷◌, ◌++◌, map, if◌then◌else◌, ◌≡◌, refl, arith,
}

pub cons_cong : {A : Type 0} {a b : A} {xs ys : List A} → a ≡ b → xs ≡ ys → (a ∷ xs) ≡ (b ∷ ys)
cons_cong h g = cc

abbrev pub count : {A : Type 0} → (A → Bool) → List A → ℕ
count q [] = 0
count q (x ∷ xs) = if q x then suc (count q xs) else count q xs

pub count-append :
    {A : Type 0} (q : A → Bool) (xs ys : List A) → count q (xs ++ ys) ≡ count q xs + count q ys
count-append q [] ys = omega arith
count-append q (x ∷ xs) ys = ground (arith, count-append q xs ys)

pub map-append :
    {A B : Type 0} (f : A → B) (xs ys : List A) → map f (xs ++ ys) ≡ map f xs ++ map f ys
map-append f [] ys = refl
map-append f (x ∷ xs) ys = cons_cong refl (map-append f xs ys)
