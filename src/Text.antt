-- ===== src/Text.antt =====
-- `str` as far as src/swimzh/domain uses it: `strip`, `casefold`, and the order of code points.
pub mod Order
use Prim.Native.Char.{code}
use Prim.Native.String.{◌++◌ as str_append}
use swimming_in_zurich.Base.{
  ℕ, zero, suc, ◌+◌, ◌/◌, ◌%◌, Bool, true, false, not, ◌&&◌, ◌||◌, ltb, leb, ◌==◌, if◌then◌else◌,
  String, str_eq, List, [], ◌∷◌,
}

-- The characters for which `str.isspace` holds.
unfoldable pub is_space : ℕ → Bool
is_space c =
    (leb 9 c && leb c 13)
    || (leb 28 c && leb c 32)
    || c == 133
    || c == 160
    || c == 5760
    || (leb 8192 c && leb c 8202)
    || c == 8232
    || c == 8233
    || c == 8239
    || c == 8287
    || c == 12288

unfoldable pub lstrip : String → String
unfolding is_space
lstrip String.[] = String.[]
lstrip (String.◌∷◌ c s) = let rest = lstrip s in if is_space (code c) then rest else String.◌∷◌ c s

unfoldable pub rstrip : String → String
unfolding is_space
rstrip String.[] = String.[]
rstrip (String.◌∷◌ c s) =
    let rest = rstrip s in
    if is_space (code c) && str_eq rest String.[] then String.[] else String.◌∷◌ c rest

-- `s.strip()`
unfoldable pub strip : String → String
unfolding lstrip rstrip
strip s = rstrip (lstrip s)

-- `bool(s)`
abbrev pub is_empty : String → Bool
is_empty String.[] = true
is_empty (String.◌∷◌ _ _) = false

abbrev pub codes : String → List ℕ
codes String.[] = []
codes (String.◌∷◌ c s) = code c ∷ codes s

unfoldable pub codes_le : List ℕ → List ℕ → Bool
codes_le [] ys = true
codes_le (x ∷ xs) [] = false
codes_le (x ∷ xs) (y ∷ ys) = ltb x y || (x == y && codes_le xs ys)

-- `s <= t`
unfoldable pub str_le : String → String → Bool
unfolding codes_le
str_le s t = codes_le (codes s) (codes t)

-- `s < t`
unfoldable pub str_lt : String → String → Bool
str_lt s t = not (str_le t s)

unfoldable pub digit : ℕ → String
digit n =
    if n == 0
    then "0"
    else if n == 1
    then "1"
    else if n == 2
    then "2"
    else if n == 3
    then "3"
    else if n == 4
    then "4"
    else if n == 5
    then "5"
    else if n == 6
    then "6"
    else if n == 7
    then "7"
    else if n == 8
    then "8"
    else "9"

-- The decimal digits of a number that has at most `fuel` of them.
unfoldable pub decimal_upto : ℕ → ℕ → String
unfolding digit
decimal_upto zero n = ""
decimal_upto (suc fuel) n =
    let front = str_append (decimal_upto fuel (n / 10)) (digit (n % 10)) in
    if ltb n 10 then digit n else front

-- `str(n)`: a number has at most as many digits as its value and one.
unfoldable pub decimal : ℕ → String
unfolding decimal_upto
decimal n = decimal_upto (n + 1) n

-- `str(n)` padded with zeros to two places, and to four.
unfoldable pub pad2 : ℕ → String
unfolding decimal
pad2 n = if ltb n 10 then str_append "0" (decimal n) else decimal n

unfoldable pub pad4 : ℕ → String
unfolding pad2 decimal
pad4 n =
    if ltb n 100
    then str_append "00" (pad2 n)
    else if ltb n 1000
    then str_append "0" (decimal n)
    else decimal n

-- `sep.join(parts)`
unfoldable pub join : String → List String → String
join sep [] = ""
join sep (s ∷ []) = s
join sep (s ∷ t ∷ rest) = str_append s (str_append sep (join sep (t ∷ rest)))

abbrev flush : String → List String → List String
flush String.[] words = words
flush (String.◌∷◌ c w) words = String.◌∷◌ c w ∷ words

-- The word that the string begins with, empty before a blank, and the words after it.
unfoldable pub words_of : String → String × List String
unfolding is_space
words_of String.[] = (String.[], [])
words_of (String.◌∷◌ c s) =
    let (word, words) = words_of s in
    if is_space (code c) then (String.[], flush word words) else (String.◌∷◌ c word, words)

-- `s.split()`
unfoldable pub split : String → List String
unfolding words_of
split s = let (word, words) = words_of s in flush word words

-- src/swimzh/core/normalize.py
unfoldable pub normalize : (String → String) → String → String
unfolding strip split join
normalize casefold text = join " " (split (casefold (strip text)))

unfoldable pub starts_with : String → String → Bool
starts_with String.[] t = true
starts_with (String.◌∷◌ c s) String.[] = false
starts_with (String.◌∷◌ c s) (String.◌∷◌ d t) = code c == code d && starts_with s t

-- `part in s`
unfoldable pub is_within : String → String → Bool
unfolding starts_with
is_within part String.[] = is_empty part
is_within part (String.◌∷◌ c s) = starts_with part (String.◌∷◌ c s) || is_within part s
