-- ===== src/Catalog/Slug.antt =====
-- src/swimzh/domain/catalog.py: `slug`. `lower` is the interpreter's.
pub mod Shape
use Prim.Native.Char.{code}
use swimming_in_zurich.Base.{
  ℕ, Bool, true, false, ◌&&◌, ◌||◌, leb, ◌==◌, if◌then◌else◌, String, str_append,
}
use swimming_in_zurich.Text.{strip, is_empty}

-- `_TRANSLIT`
unfoldable pub translated : ℕ → String → String
translated c letter =
    if c == 228
    then "ae"
    else if c == 246
    then "oe"
    else if c == 252
    then "ue"
    else if c == 223
    then "ss"
    else letter

unfoldable pub translate : String → String
unfolding translated
translate String.[] = String.[]
translate (String.◌∷◌ c s) = str_append (translated (code c) (String.◌∷◌ c String.[])) (translate s)

-- `[a-z0-9]`
unfoldable pub is_slug_char : ℕ → Bool
is_slug_char c = (leb 97 c && leb c 122) || (leb 48 c && leb c 57)

-- `re.sub(r"[^a-z0-9]+", "-", s)`, after a replaced character or not.
unfoldable pub dashed : Bool → String → String
unfolding is_slug_char
dashed in_run String.[] = String.[]
dashed in_run (String.◌∷◌ c s) =
    let kept = String.◌∷◌ c (dashed false s) in
    let rest = dashed true s in
    if is_slug_char (code c) then kept else if in_run then rest else str_append "-" rest

-- `s.strip("-")`
unfoldable pub lstrip_dash : String → String
lstrip_dash String.[] = String.[]
lstrip_dash (String.◌∷◌ c s) =
    let rest = lstrip_dash s in if code c == 45 then rest else String.◌∷◌ c s

unfoldable pub rstrip_dash : String → String
rstrip_dash String.[] = String.[]
rstrip_dash (String.◌∷◌ c s) =
    let rest = rstrip_dash s in
    if code c == 45 && is_empty rest then String.[] else String.◌∷◌ c rest

unfoldable pub slug : (String → String) → String → String
unfolding strip translate dashed lstrip_dash rstrip_dash
slug lower name = rstrip_dash (lstrip_dash (dashed false (translate (lower (strip name)))))
