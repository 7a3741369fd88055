-- ===== src/Boundary/ScheduleTokens.antt =====
-- The token tables of src/swimzh/boundary/mapping.py and src/swimzh/storage/codec.py for schedules,
-- both directions: `_to` is the dict from the enum to its token, `_from` the look-up of a token, which
-- raises a KeyError on any other string.
use swimming_in_zurich.Base.{Option, some, List, [], ◌∷◌, String, ◌≡◌, refl}
use swimming_in_zurich.Closure.{lookup}
use swimming_in_zurich.Schedule.{Weekday, DayScope, DatePrecision, Weather, HolidayPolicy}

unfoldable pub weekday_to : Weekday → String
weekday_to Weekday.monday = "mon"
weekday_to Weekday.tuesday = "tue"
weekday_to Weekday.wednesday = "wed"
weekday_to Weekday.thursday = "thu"
weekday_to Weekday.friday = "fri"
weekday_to Weekday.saturday = "sat"
weekday_to Weekday.sunday = "sun"

abbrev pub weekday_table : List (String × Weekday)
weekday_table =
    ("mon", Weekday.monday)
    ∷ ("tue", Weekday.tuesday)
    ∷ ("wed", Weekday.wednesday)
    ∷ ("thu", Weekday.thursday)
    ∷ ("fri", Weekday.friday)
    ∷ ("sat", Weekday.saturday)
    ∷ ("sun", Weekday.sunday)
    ∷ []

unfoldable pub weekday_from : String → Option Weekday
unfolding lookup
weekday_from token = lookup token weekday_table

pub weekday_from-to : (x : Weekday) → weekday_from (weekday_to x) ≡ some x
unfolding weekday_from weekday_to
weekday_from-to Weekday.monday = refl
weekday_from-to Weekday.tuesday = refl
weekday_from-to Weekday.wednesday = refl
weekday_from-to Weekday.thursday = refl
weekday_from-to Weekday.friday = refl
weekday_from-to Weekday.saturday = refl
weekday_from-to Weekday.sunday = refl

unfoldable pub scope_to : DayScope → String
scope_to DayScope.always = "always"
scope_to DayScope.school_term = "school_term"
scope_to DayScope.school_holiday = "school_holiday"

abbrev pub scope_table : List (String × DayScope)
scope_table =
    ("always", DayScope.always)
    ∷ ("school_term", DayScope.school_term)
    ∷ ("school_holiday", DayScope.school_holiday)
    ∷ []

unfoldable pub scope_from : String → Option DayScope
unfolding lookup
scope_from token = lookup token scope_table

pub scope_from-to : (x : DayScope) → scope_from (scope_to x) ≡ some x
unfolding scope_from scope_to
scope_from-to DayScope.always = refl
scope_from-to DayScope.school_term = refl
scope_from-to DayScope.school_holiday = refl

unfoldable pub precision_to : DatePrecision → String
precision_to DatePrecision.day = "day"
precision_to DatePrecision.month = "month"

abbrev pub precision_table : List (String × DatePrecision)
precision_table = ("day", DatePrecision.day) ∷ ("month", DatePrecision.month) ∷ []

unfoldable pub precision_from : String → Option DatePrecision
unfolding lookup
precision_from token = lookup token precision_table

pub precision_from-to : (x : DatePrecision) → precision_from (precision_to x) ≡ some x
unfolding precision_from precision_to
precision_from-to DatePrecision.day = refl
precision_from-to DatePrecision.month = refl

unfoldable pub weather_to : Weather → String
weather_to Weather.any_weather = "any"
weather_to Weather.fair_only = "fair_only"

abbrev pub weather_table : List (String × Weather)
weather_table = ("any", Weather.any_weather) ∷ ("fair_only", Weather.fair_only) ∷ []

unfoldable pub weather_from : String → Option Weather
unfolding lookup
weather_from token = lookup token weather_table

pub weather_from-to : (x : Weather) → weather_from (weather_to x) ≡ some x
unfolding weather_from weather_to
weather_from-to Weather.any_weather = refl
weather_from-to Weather.fair_only = refl

unfoldable pub policy_to : HolidayPolicy → String
policy_to HolidayPolicy.normal = "normal"
policy_to HolidayPolicy.sunday_schedule = "sunday_schedule"
policy_to HolidayPolicy.closed = "closed"

abbrev pub policy_table : List (String × HolidayPolicy)
policy_table =
    ("normal", HolidayPolicy.normal)
    ∷ ("sunday_schedule", HolidayPolicy.sunday_schedule)
    ∷ ("closed", HolidayPolicy.closed)
    ∷ []

unfoldable pub policy_from : String → Option HolidayPolicy
unfolding lookup
policy_from token = lookup token policy_table

pub policy_from-to : (x : HolidayPolicy) → policy_from (policy_to x) ≡ some x
unfolding policy_from policy_to
policy_from-to HolidayPolicy.normal = refl
policy_from-to HolidayPolicy.sunday_schedule = refl
policy_from-to HolidayPolicy.closed = refl
