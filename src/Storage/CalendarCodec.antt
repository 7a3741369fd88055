-- ===== src/Storage/CalendarCodec.antt =====
-- src/swimzh/storage/calendar_codec.py: the calendar to its DTO and back. A dict keyed by date is its
-- items in insertion order; dict equality does not see the order.
pub mod RoundTrip
use swimming_in_zurich.Base.{
  ℕ, Bool, true, false, ◌&&◌, ◌||◌, if◌then◌else◌, List, [], ◌∷◌, String, map,
}
use swimming_in_zurich.Base.Sort.{sort}
use swimming_in_zurich.Text.{str_le}
use swimming_in_zurich.Dates.{Date, date_eq, date_le}
use swimming_in_zurich.Calendar.{ZurichCalendar, HolidayRange}
use swimming_in_zurich.Panel.{sorted_lanes}
use swimming_in_zurich.Boundary.Dto.{PublicHolidayDto, SchoolHolidayDto, CalendarDto}

-- `(day, name) <= (day, name)`
unfoldable pub item_le : Date × String → Date × String → Bool
unfolding date_eq date_le str_le
item_le (d, s) (e, t) = if date_eq d e then str_le s t else date_le d e

abbrev pub holiday_to_dto : Date × String → PublicHolidayDto
holiday_to_dto (day, name) = record { date = day; name = name }

abbrev pub range_to_dto : HolidayRange → SchoolHolidayDto
range_to_dto r = record { name = r.name; start = r.start; end = r.end }

unfoldable pub calendar_to_dto : ZurichCalendar → CalendarDto
unfolding sort
calendar_to_dto calendar = record {
  known_years = sorted_lanes calendar.known_years;
  public_holidays = map holiday_to_dto (sort item_le calendar.public);
  school_holidays = map range_to_dto calendar.school;
}

-- `d[day] = name`
unfoldable pub put_holiday : Date → String → List (Date × String) → List (Date × String)
put_holiday day name [] = (day, name) ∷ []
put_holiday day name ((d, n) ∷ rest) =
    if date_eq d day then (d, name) ∷ rest else (d, n) ∷ put_holiday day name rest

-- `{h.date: h.name for h in holidays}`, after the items `d`.
unfoldable pub holidays_from : List (Date × String) → List PublicHolidayDto → List (Date × String)
unfolding put_holiday
holidays_from d [] = d
holidays_from d (h ∷ hs) = holidays_from (put_holiday h.date h.name d) hs

abbrev pub range_from_dto : SchoolHolidayDto → HolidayRange
range_from_dto r = record { name = r.name; start = r.start; end = r.end }

-- The constructor makes a frozenset of the years.
unfoldable pub calendar_from_dto : CalendarDto → ZurichCalendar
unfolding holidays_from
calendar_from_dto dto = record {
  public = holidays_from [] dto.public_holidays;
  school = map range_from_dto dto.school_holidays;
  known_years = sorted_lanes dto.known_years;
}
