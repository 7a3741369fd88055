-- ===== src/Calendar.antt =====
-- src/swimzh/domain/calendar.py: school-holiday and public-holiday context for a date.
use swimming_in_zurich.Base.{
  ℕ, Bool, not, ◌&&◌, Option, none, some, List, [], ◌∷◌, String, find_first, any, ◌==◌, is_none,
  if◌then◌else◌,
}
use swimming_in_zurich.Dates.{Date, date_le, date_eq}

pub record DayContext : Type 0 where
  pub date : Date
  pub is_public_holiday : Bool
  pub holiday_name : Option String
  pub is_school_holiday : Bool
  pub school_holiday_name : Option String

pub record HolidayRange : Type 0 where
  pub name : String
  pub start : Date
  pub end : Date

unfoldable pub range_contains : HolidayRange → Date → Bool
unfolding date_le
range_contains r d = date_le r.start d && date_le d r.end

-- `public` is a dict keyed by date, as its items.
pub record ZurichCalendar : Type 0 where
  pub public : List (Date × String)
  pub school : List HolidayRange
  pub known_years : List ℕ

unfoldable pub covers : ZurichCalendar → Date → Bool
covers c d = any (λ y. d.year == y) c.known_years

-- `self._public.get(d)`
unfoldable pub holiday_on : List (Date × String) → Date → Option String
unfolding date_eq
holiday_on [] d = none
holiday_on ((k, name) ∷ rest) d = if date_eq k d then some name else holiday_on rest d

abbrev range_name : Option HolidayRange → Option String
range_name none = none
range_name (some r) = some r.name

unfoldable pub context : ZurichCalendar → Date → DayContext
unfolding holiday_on range_contains
context c d =
    let name = holiday_on c.public d in
    let school = find_first (λ r. range_contains r d) c.school in
    record {
      date = d;
      is_public_holiday = not (is_none name);
      holiday_name = name;
      is_school_holiday = not (is_none school);
      school_holiday_name = range_name school;
    }
