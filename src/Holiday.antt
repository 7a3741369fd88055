-- ===== src/Holiday.antt =====
-- src/swimzh/domain/holiday.py: public-holiday names as codes.
use swimming_in_zurich.Base.{Option, none, some, List, [], ◌∷◌, String, if◌then◌else◌}
use swimming_in_zurich.Text.{strip, is_empty}
use swimming_in_zurich.Closure.{lookup, or_empty}

pub data HolidayCode : Type 0 where
  new_year berchtoldstag good_friday easter_monday labour_day ascension : HolidayCode
  whit_monday national_day christmas st_stephens unknown : HolidayCode

abbrev pub names : List (String × HolidayCode)
names =
    ("neujahr", new_year)
    ∷ ("berchtoldstag", berchtoldstag)
    ∷ ("karfreitag", good_friday)
    ∷ ("ostermontag", easter_monday)
    ∷ ("tag der arbeit", labour_day)
    ∷ ("auffahrt", ascension)
    ∷ ("pfingstmontag", whit_monday)
    ∷ ("bundesfeier", national_day)
    ∷ ("weihnachten", christmas)
    ∷ ("stephanstag", st_stephens)
    ∷ []

-- `_NAMES.get(key, UNKNOWN)`
abbrev pub known_or : Option HolidayCode → HolidayCode
known_or none = unknown
known_or (some code) = code

unfoldable pub classify_holiday : (String → String) → Option String → HolidayCode
unfolding strip lookup
classify_holiday casefold name =
    let stripped = strip (or_empty name) in
    if is_empty stripped then unknown else known_or (lookup (casefold stripped) names)

-- The enum's wire value.
unfoldable pub holiday_value : HolidayCode → String
holiday_value new_year = "new_year"
holiday_value berchtoldstag = "berchtoldstag"
holiday_value good_friday = "good_friday"
holiday_value easter_monday = "easter_monday"
holiday_value labour_day = "labour_day"
holiday_value ascension = "ascension"
holiday_value whit_monday = "whit_monday"
holiday_value national_day = "national_day"
holiday_value christmas = "christmas"
holiday_value st_stephens = "st_stephens"
holiday_value unknown = "unknown"
