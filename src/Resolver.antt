-- ===== src/Resolver.antt =====
-- src/swimzh/domain/resolver.py: the schedule of a facility, a basin or a feature on a date.
pub mod Priority
pub mod Sessions
use swimming_in_zurich.Base.{
  ℕ, Bool, true, false, not, ◌&&◌, leb, if◌then◌else◌, Option, none, some, List, [], ◌∷◌, String,
  keep, any, all, map, find_first, nonempty, is_none,
}
use swimming_in_zurich.Base.Sort.{sort}
use swimming_in_zurich.Dates.{Date, date_eq}
use swimming_in_zurich.Text.{is_empty}
use swimming_in_zurich.Closure.{
  ClosureCode, StrParams, out_of_season, no_sessions, public_holiday, or_empty,
}
use swimming_in_zurich.Holiday.{classify_holiday, holiday_value}
use swimming_in_zurich.Calendar.{DayContext, ZurichCalendar, context}
use swimming_in_zurich.Schedule.{
  Weekday, sunday, weekday_on, on_weekday, DayScope, always, school_term, school_holiday,
  HolidayPolicy, normal, sunday_schedule, closed, ScheduleRule, ResolvedSession, ScheduleException,
  AnnualWindow, ClosureRange, closure_contains, in_window, DaySchedule, open_day,
  open_unscheduled_day, closed_day,
}
use swimming_in_zurich.Models.{Basin, Facility, OperatingSeason}

-- `_find_exception`
unfoldable pub find_exception : List ScheduleException → Date → Option ScheduleException
unfolding date_eq
find_exception exceptions d = find_first (λ e. date_eq e.date d) exceptions

-- `_scope_applies`
unfoldable pub scope_applies : DayScope → DayContext → Bool
scope_applies always ctx = true
scope_applies school_term ctx = not ctx.is_school_holiday
scope_applies school_holiday ctx = ctx.is_school_holiday

unfoldable pub season_runs : Option AnnualWindow → Date → Bool
season_runs none d = true
season_runs (some w) d = in_window w d

-- `_in_season`
unfoldable pub in_season : ScheduleRule → Date → Bool
unfolding season_runs in_window
in_season rule d = season_runs rule.season d

abbrev pub session_of : ScheduleRule → ResolvedSession
session_of rule = record { time = rule.time; access = rule.access; weather = rule.weather }

-- The condition of the comprehension in `_sessions_for_weekday`.
unfoldable pub rule_runs : Weekday → DayContext → Date → ScheduleRule → Bool
unfolding on_weekday scope_applies in_season
rule_runs weekday ctx d rule =
    on_weekday weekday rule.weekdays && (scope_applies rule.scope ctx && in_season rule d)

abbrev pub starts_before : ResolvedSession → ResolvedSession → Bool
starts_before s t = leb s.time.start t.time.start

-- `_sessions_for_weekday`
unfoldable pub sessions_for_weekday :
    List ScheduleRule → Weekday → DayContext → Date → List ResolvedSession
unfolding rule_runs sort
sessions_for_weekday rules weekday ctx d =
    sort starts_before (map session_of (keep (rule_runs weekday ctx d) rules))

-- `_empty_day`
unfoldable pub empty_day : List ScheduleRule → Date → DaySchedule
unfolding in_season
empty_day rules d =
    if nonempty rules
      && (all (λ rule. not (is_none rule.season)) rules
          && not (any (λ rule. in_season rule d) rules))
    then closed_day out_of_season []
    else closed_day no_sessions []

-- The parameters of a holiday closure.
unfoldable pub holiday_params : (String → String) → Option String → StrParams
unfolding classify_holiday holiday_value
holiday_params casefold name =
    let label = or_empty name in
    if is_empty label
    then []
    else ("holiday", label)
      ∷ ("holiday_code", holiday_value (classify_holiday casefold (some label)))
      ∷ []

-- Step 5 and the end of `resolve_hours`: the recurring rules of the effective weekday.
unfoldable pub weekly_day : List ScheduleRule → Weekday → DayContext → Date → Bool → DaySchedule
unfolding sessions_for_weekday empty_day
weekly_day rules weekday ctx d unverified =
    let sessions = sessions_for_weekday rules weekday ctx d in
    if nonempty sessions then open_day sessions unverified else empty_day rules d

-- Step 4: the policy on a public holiday.
unfoldable pub holiday_day :
    (String → String) → Option HolidayPolicy → List ScheduleRule → DayContext → Date → DaySchedule
holiday_day casefold (some closed) rules ctx d =
    closed_day public_holiday (holiday_params casefold ctx.holiday_name)
holiday_day casefold (some sunday_schedule) rules ctx d = weekly_day rules sunday ctx d false
holiday_day casefold (some normal) rules ctx d = weekly_day rules (weekday_on d) ctx d false
holiday_day casefold none rules ctx d = weekly_day rules (weekday_on d) ctx d true

-- Steps 4 and 5.
unfoldable pub recurring_day :
    (String → String) → Option HolidayPolicy → List ScheduleRule → DayContext → Date → DaySchedule
recurring_day casefold policy rules ctx d =
    if ctx.is_public_holiday
    then holiday_day casefold policy rules ctx d
    else weekly_day rules (weekday_on d) ctx d false

-- Step 3: the season gate, in front of what follows it.
unfoldable pub season_gate :
    Option OperatingSeason → List ScheduleRule → Date → DaySchedule → DaySchedule
season_gate none rules d rest = rest
season_gate (some season) rules d rest =
    if not (in_window season.window d)
    then closed_day out_of_season []
    else if not (nonempty rules)
    then open_unscheduled_day season.weather
    else rest

-- Step 2: the exception of the date, in front of what follows it.
unfoldable pub exception_gate : Option ScheduleException → DaySchedule → DaySchedule
exception_gate none rest = rest
exception_gate (some e) rest =
    if e.closed then closed_day e.code e.params else open_day e.sessions false

-- Step 1: the first closure that holds the date, in front of what follows it.
unfoldable pub closure_gate : Option ClosureRange → DaySchedule → DaySchedule
closure_gate none rest = rest
closure_gate (some c) rest = closed_day c.code c.params

unfoldable pub resolve_hours :
    (String → String)
    → Facility
    → List ScheduleRule
    → List ScheduleException
    → Date
    → ZurichCalendar
    → DaySchedule
unfolding closure_gate exception_gate season_gate find_exception context closure_contains
resolve_hours casefold facility rules exceptions d calendar =
    closure_gate (find_first (λ c. closure_contains c d) facility.closures) (
      exception_gate (find_exception exceptions d) (
        season_gate facility.operating_season rules d
          (recurring_day casefold facility.public_holiday_policy rules (context calendar d) d)))

unfoldable pub resolve_basin :
    (String → String) → Facility → Basin → Date → ZurichCalendar → DaySchedule
unfolding resolve_hours
resolve_basin casefold facility basin d calendar =
    resolve_hours casefold facility basin.rules basin.exceptions d calendar
