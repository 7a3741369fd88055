-- ===== src/Silver/Grouped.antt =====
-- Dicts of lists (src/swimzh/etl/silver.py): what holds of each item under its key is kept by an
-- append and found by a look-up.
use swimming_in_zurich.Base.{
  List, [], ◌∷◌, ◌++◌, String, str_eq, str_eq_iff, sym, subst, inl, inr, All, Bool-cases,
}
use swimming_in_zurich.Silver.{append_at, items_at}

module _ {A : Type 0} where
  pub All-append : (P : A → Type 0) (xs ys : List A) → All P xs → All P ys → All P (xs ++ ys)
  All-append P [] ys h k = k
  All-append P (x ∷ xs) ys h k = (h.0, All-append P xs ys h.1 k)

  abbrev pub Each : (String → A → Type 0) → List (String × List A) → Type 0
  Each K [] = Unit
  Each K ((k, xs) ∷ rest) = All (K k) xs × Each K rest

  pub append_at-Each :
      (K : String → A → Type 0) (key : String) (x : A) (d : List (String × List A))
      → K key x
      → Each K d
      → Each K (append_at key x d)
  unfolding append_at
  append_at-Each K key x [] h e = ((h, tt), tt)
  append_at-Each K key x ((k, xs) ∷ rest) h e = elim (Bool-cases (str_eq key k)) [
    | inl same ↦ rw same (
      All-append (K k) xs (x ∷ []) e.0 (subst (λ u. K u x) ((str_eq_iff key k).0 same) h, tt),
      e.1,
    )
    | inr other ↦ rw other (e.0, append_at-Each K key x rest h e.1)
  ]

  pub items_at-Each :
      (K : String → A → Type 0) (key : String) (d : List (String × List A))
      → Each K d
      → All (K key) (items_at key d)
  unfolding items_at
  items_at-Each K key [] e = tt
  items_at-Each K key ((k, xs) ∷ rest) e = elim (Bool-cases (str_eq key k)) [
    | inl same ↦ rw same (subst (λ u. All (K u) xs) (sym ((str_eq_iff key k).0 same)) e.0)
    | inr other ↦ rw other (items_at-Each K key rest e.1)
  ]
