-- ===== src/Dates.antt =====
-- `datetime.date` and `datetime.time` as far as src/swimzh uses them. A date is its year, month and
-- day, ordered lexicographically; a time of day is its number of microseconds since midnight.
use swimming_in_zurich.Base.{
  ℕ, ◌+◌, ◌-◌, ◌*◌, ◌/◌, ◌%◌, Bool, true, ◌&&◌, ◌||◌, not, ltb, leb, ◌==◌, if◌then◌else◌, ◌≡◌, ◌↔◌,
  arith, refl, String, ◌∷◌, [],
}
use swimming_in_zurich.Text.{join, pad2, pad4}

abbrev pub Time : Type 0
Time = ℕ

-- The microseconds of an hour.
abbrev pub hour : ℕ
hour = 3600000000

-- `time(h, m)`
abbrev pub clock : ℕ → ℕ → Time
clock h m = h * hour + m * 60000000

pub record Date : Type 0 where
  pub year : ℕ
  pub month : ℕ
  pub day : ℕ

-- `day.isoformat()`
unfoldable pub isoformat : Date → String
unfolding join pad2 pad4
isoformat d = join "-" (pad4 d.year ∷ pad2 d.month ∷ pad2 d.day ∷ [])

-- `(a, b) <= (c, d)` on pairs of numbers.
unfoldable pub pair_le : ℕ → ℕ → ℕ → ℕ → Bool
pair_le a b c d = ltb a c || (a == c && leb b d)

-- `a <= b` on dates.
unfoldable pub date_le : Date → Date → Bool
unfolding pair_le
date_le a b = ltb a.year b.year || (a.year == b.year && pair_le a.month a.day b.month b.day)

-- `date(year, month, day)` of a day that exists.
abbrev pub date : (year month day : ℕ) → Date
date year month day = record { year = year; month = month; day = day }

-- `a == b` on dates.
unfoldable pub date_eq : Date → Date → Bool
date_eq a b = a.year == b.year && (a.month == b.month && a.day == b.day)

pub date_eq_iff : (a b : Date) → (date_eq a b ≡ true) ↔ (a ≡ b)
unfolding date_eq
date_eq_iff a b = ground arith

pub date_le_antisymm : (a b : Date) → date_le a b ≡ true → date_le b a ≡ true → a ≡ b
unfolding date_le
date_le_antisymm a b h k = ground arith

unfoldable pub is_leap : ℕ → Bool
is_leap y = (y % 4 == 0) && (not (y % 100 == 0) || (y % 400 == 0))

unfoldable pub days_before_year : ℕ → ℕ
days_before_year y = let k = y - 1 in k * 365 + k / 4 - k / 100 + k / 400

-- Days before the first of a month; the tables of the month lengths are written out.
unfoldable pub days_before_month : ℕ → ℕ → ℕ
unfolding is_leap
days_before_month y m =
    let leap : ℕ = (if is_leap y then 1 else 0) in
    if leb m 1
    then 0
    else if m == 2
    then 31
    else if m == 3
    then 59 + leap
    else if m == 4
    then 90 + leap
    else if m == 5
    then 120 + leap
    else if m == 6
    then 151 + leap
    else if m == 7
    then 181 + leap
    else if m == 8
    then 212 + leap
    else if m == 9
    then 243 + leap
    else if m == 10
    then 273 + leap
    else if m == 11
    then 304 + leap
    else 334 + leap

unfoldable pub to_ordinal : Date → ℕ
unfolding days_before_year days_before_month
to_ordinal d = days_before_year d.year + days_before_month d.year d.month + d.day

-- `d.weekday()`: Monday is 0.
unfoldable pub weekday_number : Date → ℕ
unfolding to_ordinal
weekday_number d = (to_ordinal d + 6) % 7

bundesfeier_weekday : weekday_number (date 2026 8 1) ≡ 5
unfolding weekday_number
bundesfeier_weekday = refl
