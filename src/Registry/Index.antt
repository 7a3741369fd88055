-- ===== src/Registry/Index.antt =====
-- The alias index of the registry (src/swimzh/domain/registry.py), name by name.
use swimming_in_zurich.Base.{
  false, if◌then◌else◌, some, List, [], ◌∷◌, String, str_eq, str_eq_iff, ◌≡◌, refl, sym, ap, subst,
  ◌∙◌, inl, inr, arith, In, Bool-cases,
}
use swimming_in_zurich.Text.{normalize}
use swimming_in_zurich.Closure.{lookup}
use swimming_in_zurich.Registry.{put, is_taken, index_aliases}

module _ {A : Type 0} where
  pub lookup-put :
      (j key : String) (v : A) (m : List (String × A))
      → lookup j (put key v m) ≡ (if str_eq j key then some v else lookup j m)
  unfolding lookup put
  lookup-put j key v [] = refl
  lookup-put j key v ((k, w) ∷ rest) =
      ground (arith, str_eq_iff key k, str_eq_iff j k, str_eq_iff j key, lookup-put j key v rest)

  lookup-put_same :
      (key : String) (v : A) (m : List (String × A)) → lookup key (put key v m) ≡ some v
  lookup-put_same key v m = ground (arith, lookup-put key key v m, str_eq_iff key key)

-- The index gives this id for each of the names.
abbrev pub Indexed : (String → String) → List (String × String) → List String → String → Type 0
Indexed casefold index names fid =
    (alias : String) → In alias names → lookup (normalize casefold alias) index ≡ some fid

-- Whatever the first index gives, the second gives too.
abbrev pub Extends : List (String × String) → List (String × String) → Type 0
Extends old new = (key fid : String) → lookup key old ≡ some fid → lookup key new ≡ some fid

put-Extends :
    (key fid : String) (index : List (String × String))
    → is_taken (lookup key index) fid ≡ false
    → Extends index (put key fid index)
unfolding is_taken
put-Extends key fid index free k f h = elim (Bool-cases (str_eq k key)) [
  | inl e ↦
      let same : k ≡ key = (str_eq_iff k key).0 e in
      let held : lookup key index ≡ some f = ap (λ x. lookup x index) (sym same) ∙ h in
      let kept : fid ≡ f = ground (arith, held, free, str_eq_iff f fid) in
      lookup-put k key fid index ∙ ap (λ b. if b then some fid else lookup k index) e ∙ ap some kept
  | inr e ↦ lookup-put k key fid index ∙ ap (λ b. if b then some fid else lookup k index) e ∙ h
]

pub index_aliases-Indexed :
    (casefold : String → String) (fid : String) (names : List String)
    (index end : List (String × String))
    → index_aliases casefold fid names index ≡ some end
    → Extends index end × Indexed casefold end names fid
unfolding index_aliases
index_aliases-Indexed casefold fid [] index end h = (
  λ k f e. subst (λ (x : List (String × String)). lookup k x ≡ some f) same e,
  λ alias m. absurd m,
)
  where
    same : index ≡ end
    same = cc
index_aliases-Indexed casefold fid (alias ∷ aliases) index end h =
    elim (Bool-cases (is_taken (lookup (normalize casefold alias) index) fid)) [
      | inl t ↦ absurd (ground arith)
      | inr t ↦
          let (more, rest) =
            index_aliases-Indexed casefold fid aliases (put (normalize casefold alias) fid index)
              end (rw t at h) in
          (
            λ k f e. more k f (put-Extends (normalize casefold alias) fid index t k f e),
            here
                (more (normalize casefold alias) fid
                  (lookup-put_same (normalize casefold alias) fid index))
                rest,
          )
    ]
  where
    here :
        lookup (normalize casefold alias) end ≡ some fid
        → Indexed casefold end aliases fid
        → Indexed casefold end (alias ∷ aliases) fid
    here k rest a (inl e) = rw e k
    here k rest a (inr m) = rest a m
