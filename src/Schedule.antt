-- ===== src/Schedule.antt =====
-- src/swimzh/domain/schedule.py: schedule primitives. A constructor whose `__post_init__` can raise
-- is a function into Option beside the record; `none` is the ValueError.
pub mod Window
use swimming_in_zurich.Base.{
  ℕ, ◌+◌, ◌-◌, Bool, true, false, not, ◌&&◌, ◌||◌, ltb, leb, ◌==◌, if◌then◌else◌, Option, none,
  some, List, [], ◌∷◌, String, any, nonempty, ◌≡◌, refl,
}
use swimming_in_zurich.Dates.{Date, Time, date_le, pair_le, weekday_number}
use swimming_in_zurich.Access.{SessionAccess}
use swimming_in_zurich.Closure.{ClosureCode, StrParams, special, classify_closure, is_special}

pub data Weekday : Type 0 where
  monday tuesday wednesday thursday friday saturday sunday : Weekday

-- The IntEnum's value.
unfoldable pub weekday_value : Weekday → ℕ
weekday_value monday = 0
weekday_value tuesday = 1
weekday_value wednesday = 2
weekday_value thursday = 3
weekday_value friday = 4
weekday_value saturday = 5
weekday_value sunday = 6

-- `Weekday(n)`, for the numbers below 7 that `date.weekday()` returns.
unfoldable pub weekday_of : ℕ → Weekday
weekday_of n =
    if n == 0
    then monday
    else if n == 1
    then tuesday
    else if n == 2
    then wednesday
    else if n == 3
    then thursday
    else if n == 4
    then friday
    else if n == 5
    then saturday
    else sunday

-- `Weekday(d.weekday())`
unfoldable pub weekday_on : Date → Weekday
unfolding weekday_of weekday_number
weekday_on d = weekday_of (weekday_number d)

-- `weekday in weekdays`
unfoldable pub on_weekday : Weekday → List Weekday → Bool
unfolding weekday_value
on_weekday w ws = any (λ v. weekday_value w == weekday_value v) ws

pub record TimeRange : Type 0 where
  pub start : Time
  pub end : Time

abbrev pub span : Time → Time → TimeRange
span lo hi = record { start = lo; end = hi }

-- `TimeRange(start, end)`, with the check of `__post_init__`.
unfoldable pub time_range : Time → Time → Option TimeRange
time_range lo hi = if leb hi lo then none else some (span lo hi)

unfoldable pub contains : TimeRange → Time → Bool
contains r t = leb r.start t && ltb t r.end

pub data DayScope : Type 0 where
  always school_term school_holiday : DayScope

pub data HolidayPolicy : Type 0 where
  normal sunday_schedule closed : HolidayPolicy

pub data DatePrecision : Type 0 where
  day month : DatePrecision

-- `_DAYS_IN_MONTH[m - 1]`; a month above 12 is an IndexError and is not asked for.
unfoldable pub days_in_month : ℕ → ℕ
days_in_month m = if m == 2 then 29 else if m == 4 || m == 6 || m == 9 || m == 11 then 30 else 31

pub record MonthDay : Type 0 where
  pub month : ℕ
  pub day : ℕ

-- `MonthDay(month, day)`, with the checks of `__post_init__`.
unfoldable pub month_day : ℕ → ℕ → Option MonthDay
unfolding days_in_month
month_day m d =
    if not (leb 1 m && leb m 12)
    then none
    else if not (leb 1 d && leb d (days_in_month m))
    then none
    else some (record { month = m; day = d })

pub record AnnualWindow : Type 0 where
  pub start : MonthDay
  pub end : MonthDay
  pub precision : DatePrecision

abbrev both : Option MonthDay → Option MonthDay → Option AnnualWindow
both (some s) (some e) = some (record { start = s; end = e; precision = DatePrecision.month })
both _ _ = none

unfoldable pub whole_months : ℕ → ℕ → Option AnnualWindow
unfolding month_day
whole_months from until = both (month_day from 1) (month_day until (days_in_month until))

-- `_within` at a month: inclusive membership on the cyclic year.
unfoldable pub within_months : ℕ → ℕ → ℕ → Bool
within_months key start end =
    if leb start end then leb start key && leb key end else leb start key || leb key end

-- `_within` at a pair of a month and a day.
unfoldable pub within_days : MonthDay → MonthDay → MonthDay → Bool
unfolding pair_le
within_days key start end =
    let after = pair_le start.month start.day key.month key.day in
    let before = pair_le key.month key.day end.month end.day in
    if pair_le start.month start.day end.month end.day then after && before else after || before

window_contains : DatePrecision → MonthDay → MonthDay → Date → Bool
window_contains DatePrecision.month s e d = within_months d.month s.month e.month
window_contains DatePrecision.day s e d = within_days (record { month = d.month; day = d.day }) s e

-- `AnnualWindow.contains`
unfoldable pub in_window : AnnualWindow → Date → Bool
unfolding window_contains within_months within_days
in_window w d = window_contains w.precision w.start w.end d

pub data Weather : Type 0 where
  any_weather fair_only : Weather

pub record ScheduleRule : Type 0 where
  pub weekdays : List Weekday
  pub time : TimeRange
  pub access : SessionAccess
  pub scope : DayScope
  pub source_text : String
  pub season : Option AnnualWindow
  pub weather : Weather

pub record ResolvedSession : Type 0 where
  pub time : TimeRange
  pub access : SessionAccess
  pub weather : Weather

-- `_derive_closure`: what `__post_init__` makes of `code` and `params`.
unfoldable pub derive_closure :
    (String → String) → String → ClosureCode → StrParams → ClosureCode × StrParams
unfolding is_special classify_closure
derive_closure casefold reason code params =
    if not (is_special code) || nonempty params
    then (code, params)
    else classify_closure casefold (some reason)

pub record ScheduleException : Type 0 where
  pub date : Date
  pub closed : Bool
  pub reason : String
  pub code : ClosureCode
  pub params : StrParams
  pub sessions : List ResolvedSession

-- `ScheduleException(…)`: the record with its closure derived.
unfoldable pub schedule_exception :
    (String → String)
    → Date
    → Bool
    → String
    → ClosureCode
    → StrParams
    → List ResolvedSession
    → ScheduleException
unfolding derive_closure
schedule_exception casefold d is_closed reason code params sessions =
    let (derived, values) = derive_closure casefold reason code params in
    record {
      date = d;
      closed = is_closed;
      reason = reason;
      code = derived;
      params = values;
      sessions = sessions;
    }

pub record ClosureRange : Type 0 where
  pub start : Date
  pub end : Date
  pub reason : String
  pub code : ClosureCode
  pub params : StrParams

-- `ClosureRange(…)`: the record with its closure derived.
unfoldable pub closure_range :
    (String → String) → Date → Date → String → ClosureCode → StrParams → ClosureRange
unfolding derive_closure
closure_range casefold start end reason code params =
    let (derived, values) = derive_closure casefold reason code params in
    record { start = start; end = end; reason = reason; code = derived; params = values }

-- `ClosureRange.contains`
unfoldable pub closure_contains : ClosureRange → Date → Bool
unfolding date_le
closure_contains c d = date_le c.start d && date_le d c.end

pub data DaySchedule : Type 0 where
  open_day : (sessions : List ResolvedSession) (holiday_policy_unverified : Bool) → DaySchedule
  open_unscheduled_day : Weather → DaySchedule
  closed_day : ClosureCode → StrParams → DaySchedule
