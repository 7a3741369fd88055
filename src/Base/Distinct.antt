-- ===== src/Base/Distinct.antt =====
-- Lists of strings without repetition, under the operations on lists that keep it.
use swimming_in_zurich.Base.{
  Bool, keep, List, [], ◌∷◌, ◌++◌, String, refl, sym, inl, inr, In, In-keep, In-append, Bool-cases,
}
use swimming_in_zurich.Base.Sort.{insert, In-insert, sort, In-sort}
use swimming_in_zurich.Text.{str_le}

-- No element is there twice.
abbrev pub Distinct : {A : Type 0} → List A → Type 0
Distinct [] = Unit
Distinct (x ∷ xs) = (In x xs → ⊥) × Distinct xs

insert-Distinct :
    (x : String) (xs : List String) → (In x xs → ⊥) → Distinct xs → Distinct (insert str_le x xs)
unfolding insert
insert-Distinct x [] fresh d = (fresh, tt)
insert-Distinct x (y ∷ ys) fresh d = elim (Bool-cases (str_le x y)) [
  | inl e ↦ rw e (fresh, d)
  | inr e ↦ rw e (
    λ m. elim (In-insert str_le y x ys m) [ inl same ↦ fresh (inl (sym same)) | inr r ↦ d.0 r ],
    insert-Distinct x ys (λ m. fresh (inr m)) d.1,
  )
]

pub sort-Distinct : (xs : List String) → Distinct xs → Distinct (sort str_le xs)
unfolding sort
sort-Distinct [] d = tt
sort-Distinct (x ∷ xs) d =
    insert-Distinct x (sort str_le xs) (λ m. d.0 (In-sort str_le x xs m)) (sort-Distinct xs d.1)

pub append-Distinct :
    (xs ys : List String)
    → Distinct xs
    → Distinct ys
    → ((k : String) → In k xs → In k ys → ⊥)
    → Distinct (xs ++ ys)
append-Distinct [] ys d e apart = e
append-Distinct (x ∷ xs) ys d e apart = (
  λ m. elim (In-append x xs ys m) [ inl a ↦ d.0 a | inr b ↦ apart x (inl refl) b ],
  append-Distinct xs ys d.1 e (λ k m. apart k (inr m)),
)

pub keep-Distinct : (p : String → Bool) (xs : List String) → Distinct xs → Distinct (keep p xs)
keep-Distinct p [] d = tt
keep-Distinct p (x ∷ xs) d = elim (Bool-cases (p x)) [
  | inl e ↦ rw e (λ m. d.0 (In-keep p x xs m).0, keep-Distinct p xs d.1)
  | inr e ↦ rw e (keep-Distinct p xs d.1)
]
