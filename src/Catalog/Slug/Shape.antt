-- ===== src/Catalog/Slug/Shape.antt =====
-- The shape of a slug (`slug` of src/swimzh/domain/catalog.py).
use Prim.Native.Char.{Char, code}
use Prim.Native.String.append
use swimming_in_zurich.Base.{
  ℕ, Bool, true, false, not, ◌&&◌, ◌||◌, ◌==◌, if◌then◌else◌, String, ◌≡◌, refl, ap, sym, ◌∙◌, ◌⊎◌,
  inl, inr, arith, Bool-cases, str_append,
}
use swimming_in_zurich.Text.{is_empty, strip}
use swimming_in_zurich.Catalog.Slug.{
  translate, is_slug_char, dashed, lstrip_dash, rstrip_dash, slug,
}

-- Runs of slug characters with one dash between two of them, after a dash or not.
abbrev pub words : Bool → String → Bool
words after_dash String.[] = not after_dash
words after_dash (String.◌∷◌ c s) =
    let more = words false s in
    let next = words true s in
    if is_slug_char (code c) then more else code c == 45 && not after_dash && next

-- The empty string, or words.
abbrev pub is_slug : String → Bool
is_slug s = is_empty s || words true s

-- As `words`, but a dash may be the last character.
abbrev runs : Bool → String → Bool
runs after_dash String.[] = true
runs after_dash (String.◌∷◌ c s) =
    let more = runs false s in
    let next = runs true s in
    if is_slug_char (code c) then more else code c == 45 && not after_dash && next

dash_front : (c : Char) (s : String) → str_append (String.◌∷◌ c "") s ≡ String.◌∷◌ c s
dash_front c s = (λ i. append.cons c "" s i) ∙ ap (String.◌∷◌ c) (λ i. append.nil s i)

dash-runs : (s : String) → runs false (str_append "-" s) ≡ runs true s
unfolding is_slug_char
dash-runs s = ap (runs false) (dash_front "-" s)

dashed-runs : (in_run : Bool) (s : String) → runs in_run (dashed in_run s) ≡ true
unfolding dashed
dashed-runs in_run String.[] = refl
dashed-runs true (String.◌∷◌ c s) = elim (Bool-cases (is_slug_char (code c))) [
  | inl e ↦ rw (e, e) (dashed-runs false s)
  | inr e ↦ rw e (dashed-runs true s)
]
dashed-runs false (String.◌∷◌ c s) = elim (Bool-cases (is_slug_char (code c))) [
  | inl e ↦ rw (e, e) (dashed-runs false s)
  | inr e ↦ rw (e, dash-runs (dashed true s)) (dashed-runs true s)
]

lstrip_dash-runs : (a : Bool) (s : String) → runs a s ≡ true → runs true (lstrip_dash s) ≡ true
unfolding lstrip_dash is_slug_char
lstrip_dash-runs a String.[] h = refl
lstrip_dash-runs a (String.◌∷◌ c s) h = ground (arith, lstrip_dash-runs true s)

empty-words : (a : Bool) (s : String) → is_empty s ≡ true → words a s ≡ not a
empty-words a String.[] h = refl
empty-words a (String.◌∷◌ c s) h = absurd (cc h)

words_of_full :
    (a : Bool) (s : String)
    → is_empty s ≡ false
    → (is_empty s ≡ true) ⊎ (words a s ≡ true)
    → words a s ≡ true
words_of_full a s full (inl e) = absurd (cc (full, e))
words_of_full a s full (inr h) = h

dash_first :
    (a : Bool) (n : ℕ) (more : Bool)
    → (n == 45 && not a && more) ≡ true
    → (n == 45 ≡ true) × (a ≡ false) × (more ≡ true)
dash_first a n more h = ground (arith, h)

&&-false : (b : Bool) → (b && false) ≡ false
&&-false true = refl
&&-false false = refl

rstrip_dash-words :
    (a : Bool) (s : String)
    → runs a s ≡ true
    → (is_empty (rstrip_dash s) ≡ true) ⊎ (words a (rstrip_dash s) ≡ true)
unfolding rstrip_dash
rstrip_dash-words a String.[] h = inl refl
rstrip_dash-words a (String.◌∷◌ c s) h = elim (Bool-cases (is_empty (rstrip_dash s))) [
  | inl e ↦ elim (Bool-cases (code c == 45)) [
    | inl d ↦ inl (rw (d, e) refl)
    | inr d ↦ elim (Bool-cases (is_slug_char (code c))) [
      | inl k ↦ inr (rw (d, k) (empty-words false (rstrip_dash s) e))
      | inr k ↦ absurd (cc (rw (k, d) at h))
    ]
  ]
  | inr e ↦ elim (Bool-cases (is_slug_char (code c))) [
    | inl k ↦ inr (
        rw (e, &&-false (code c == 45), k)
          (words_of_full false (rstrip_dash s) e (rstrip_dash-words false s (rw k at h))))
    | inr k ↦
        let (dash, fresh, rest) = dash_first a (code c) (runs true s) (rw k at h) in
        inr (
          rw (e, &&-false (code c == 45), k, dash, fresh)
            (words_of_full true (rstrip_dash s) e (rstrip_dash-words true s rest)))
  ]
]

-- The slug characters of a string, in order.
abbrev pub letters : String → String
letters String.[] = String.[]
letters (String.◌∷◌ c s) =
    let rest = letters s in if is_slug_char (code c) then String.◌∷◌ c rest else rest

dash-letters : (s : String) → letters (str_append "-" s) ≡ letters s
unfolding is_slug_char
dash-letters s = ap letters (dash_front "-" s)

dashed-letters : (in_run : Bool) (s : String) → letters (dashed in_run s) ≡ letters s
unfolding dashed
dashed-letters in_run String.[] = refl
dashed-letters true (String.◌∷◌ c s) = elim (Bool-cases (is_slug_char (code c))) [
  | inl e ↦ rw (e, e) (ap (String.◌∷◌ c) (dashed-letters false s))
  | inr e ↦ rw e (dashed-letters true s)
]
dashed-letters false (String.◌∷◌ c s) = elim (Bool-cases (is_slug_char (code c))) [
  | inl e ↦ rw (e, e) (ap (String.◌∷◌ c) (dashed-letters false s))
  | inr e ↦ rw (e, dash-letters (dashed true s)) (dashed-letters true s)
]

dash_is_no_letter : (n : ℕ) → (n == 45) ≡ true → is_slug_char n ≡ false
unfolding is_slug_char
dash_is_no_letter n h = ground (arith, h)

lstrip_dash-letters : (s : String) → letters (lstrip_dash s) ≡ letters s
unfolding lstrip_dash
lstrip_dash-letters String.[] = refl
lstrip_dash-letters (String.◌∷◌ c s) = elim (Bool-cases (code c == 45)) [
  | inl e ↦ rw (e, dash_is_no_letter (code c) e) (lstrip_dash-letters s)
  | inr e ↦ rw e refl
]

empty-letters : (s : String) → is_empty s ≡ true → letters s ≡ ""
empty-letters String.[] h = refl
empty-letters (String.◌∷◌ c s) h = absurd (cc h)

rstrip_dash-letters : (s : String) → letters (rstrip_dash s) ≡ letters s
unfolding rstrip_dash
rstrip_dash-letters String.[] = refl
rstrip_dash-letters (String.◌∷◌ c s) = elim (Bool-cases (is_empty (rstrip_dash s))) [
  | inl e ↦ elim (Bool-cases (code c == 45)) [
    | inl d ↦
        rw (d, e, dash_is_no_letter (code c) d)
          (sym (empty-letters (rstrip_dash s) e) ∙ rstrip_dash-letters s)
    | inr d ↦ rw (d, rstrip_dash-letters s) refl
  ]
  | inr e ↦ rw (e, &&-false (code c == 45), rstrip_dash-letters s) refl
]

-- A slug is empty or consists of runs of small letters and digits with one dash between two of them: it
-- has no other character, no dash at its ends and no two dashes in a row. Its letters and digits are
-- those of the stripped, lowered and transliterated name, in order.
pub slug-is_slug :
    (lower : String → String) (name : String)
    → (is_slug (slug lower name) ≡ true)
      × (letters (slug lower name) ≡ letters (translate (lower (strip name))))
unfolding slug
slug-is_slug lower name =
    let text = translate (lower (strip name)) in
    let front = lstrip_dash (dashed false text) in
    (
      shaped (rstrip_dash front) (
          rstrip_dash-words true front
            (lstrip_dash-runs false (dashed false text) (dashed-runs false text))),
      rstrip_dash-letters front
          ∙ lstrip_dash-letters (dashed false text)
          ∙ dashed-letters false text,
    )
  where
    shaped : (s : String) → (is_empty s ≡ true) ⊎ (words true s ≡ true) → is_slug s ≡ true
    shaped s h = ground (arith, h)
