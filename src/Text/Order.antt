-- ===== src/Text/Order.antt =====
-- The order of strings by their code points.
use swimming_in_zurich.Base.{ℕ, true, false, List, [], ◌∷◌, String, ◌≡◌, refl, arith}
use swimming_in_zurich.Text.{codes, codes_le, str_le, str_lt}

codes_le-total : (xs ys : List ℕ) → codes_le xs ys ≡ false → codes_le ys xs ≡ true
unfolding codes_le
codes_le-total [] ys h = absurd (cc h)
codes_le-total (x ∷ xs) [] h = refl
codes_le-total (x ∷ xs) (y ∷ ys) h = ground (arith, codes_le-total xs ys)

codes_le_trans :
    (xs ys zs : List ℕ) → codes_le xs ys ≡ true → codes_le ys zs ≡ true → codes_le xs zs ≡ true
unfolding codes_le
codes_le_trans [] ys zs h k = refl
codes_le_trans (x ∷ xs) [] zs h k = absurd (cc h)
codes_le_trans (x ∷ xs) (y ∷ ys) [] h k = absurd (cc k)
codes_le_trans (x ∷ xs) (y ∷ ys) (z ∷ zs) h k = ground (arith, codes_le_trans xs ys zs)

pub str_lt-asym : (s t : String) → str_lt s t ≡ true → str_lt t s ≡ false
unfolding str_lt str_le
str_lt-asym s t h = ground (arith, codes_le-total (codes t) (codes s))

pub str_lt-cotrans : (s t u : String) → str_lt s t ≡ false → str_lt t u ≡ false → str_lt s u ≡ false
unfolding str_lt str_le
str_lt-cotrans s t u h k = ground (arith, codes_le_trans (codes u) (codes t) (codes s))

pub str_le_total : (s t : String) → str_le s t ≡ false → str_le t s ≡ true
unfolding str_le
str_le_total s t h = codes_le-total (codes s) (codes t) h

pub str_le_trans : (s t u : String) → str_le s t ≡ true → str_le t u ≡ true → str_le s u ≡ true
unfolding str_le
str_le_trans s t u h k = codes_le_trans (codes s) (codes t) (codes u) h k
