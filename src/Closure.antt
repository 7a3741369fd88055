-- ===== src/Closure.antt =====
-- src/swimzh/domain/closure.py: closure reasons as codes. `casefold` is a parameter: it is a table
-- of the Unicode standard that the interpreter carries, and the source only calls it.
use swimming_in_zurich.Base.{
  Bool, true, false, Option, none, some, List, [], ◌∷◌, String, str_eq, if◌then◌else◌,
}
use swimming_in_zurich.Text.{strip, is_empty}

pub data ClosureCode : Type 0 where
  seasonal_break seasonal_break_maintenance maintenance operational_break christmas_eve :
      ClosureCode
  public_holiday no_sessions out_of_season special unmapped : ClosureCode

-- `dict[str, str]`, as its items in order.
abbrev pub StrParams : Type 0
StrParams = List (String × String)

-- `d.get(key)` on a table of phrases.
unfoldable pub lookup : {A : Type 0} → String → List (String × A) → Option A
lookup key [] = none
lookup key ((k, v) ∷ rest) = if str_eq key k then some v else lookup key rest

abbrev pub phrases : List (String × ClosureCode)
phrases =
    ("sommerpause", seasonal_break)
    ∷ ("sommerpause / revision", seasonal_break_maintenance)
    ∷ ("revision", maintenance)
    ∷ ("betriebsferien", operational_break)
    ∷ ("heiligabend", christmas_eve)
    ∷ []

-- `text or ""`
abbrev pub or_empty : Option String → String
or_empty none = ""
or_empty (some s) = s

abbrev pub coded : Option ClosureCode → String → ClosureCode × StrParams
coded (some code) stripped = (code, [])
coded none stripped = (unmapped, ("text", stripped) ∷ [])

unfoldable pub classify_closure : (String → String) → Option String → ClosureCode × StrParams
unfolding strip lookup
classify_closure casefold text =
    let stripped = strip (or_empty text) in
    if is_empty stripped then (special, []) else coded (lookup (casefold stripped) phrases) stripped

unfoldable pub is_unmapped : ClosureCode → Bool
is_unmapped unmapped = true
is_unmapped _ = false

-- `code is ClosureCode.SPECIAL`
unfoldable pub is_special : ClosureCode → Bool
is_special special = true
is_special _ = false
