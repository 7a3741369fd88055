-- ===== src/Boundary/Schedules/RoundTrip.antt =====
-- Schedules (src/swimzh/boundary/mapping.py) survive the way to their DTOs and back.
use swimming_in_zurich.Base.{◌<◌, some, List, String, ◌≡◌, refl, arith, All, map}
use swimming_in_zurich.Base.Maybe.{
  Given, traverse-map, traverse-map_all, if_given_try-if_given, traverse,
}
use swimming_in_zurich.Access.{
  SessionAccess, public_swim, lane_swim, family_time, women_only, seniors_only, school_reserved,
  club_reserved, adults_only, girls_only, gender_diverse, accompanied_children,
}
use swimming_in_zurich.Closure.{classify_closure}
use swimming_in_zurich.Schedule.{
  Weekday, TimeRange, time_range, AnnualWindow, ScheduleRule, ResolvedSession, ScheduleException,
  schedule_exception, ClosureRange, closure_range,
}
use swimming_in_zurich.Schedule.Window.{IsMonthDay, month_day-of_IsMonthDay}
use swimming_in_zurich.Models.{OperatingSeason}
use swimming_in_zurich.Panel.{sorted_weekdays}
use swimming_in_zurich.Boundary.ScheduleTokens.{
  weekday_to, weekday_from, weekday_from-to, scope_from-to, precision_from-to, weather_from-to,
}
use swimming_in_zurich.Boundary.Schedules.{
  access_from_dto, access_to_dto, season_from_dto, season_to_dto, operating_season_from_dto,
  operating_season_to_dto, rule_from_dto, rule_to_dto, resolved_from_dto, resolved_to_dto,
  exception_from_dto, exception_to_dto, closure_from_dto, closure_to_dto,
}

pub access_from-to : (a : SessionAccess) → access_from_dto (access_to_dto a) ≡ a
unfolding access_from_dto access_to_dto
access_from-to public_swim = refl
access_from-to (lane_swim note) = refl
access_from-to (family_time note) = refl
access_from-to (women_only note) = refl
access_from-to (seniors_only min_age) = refl
access_from-to school_reserved = refl
access_from-to (club_reserved club) = refl
access_from-to (adults_only min_age note) = refl
access_from-to girls_only = refl
access_from-to (gender_diverse min_age) = refl
access_from-to accompanied_children = refl

-- What the constructors make sure of.
abbrev pub IsRange : TimeRange → Type 0
IsRange r = r.start < r.end

abbrev pub IsWindow : AnnualWindow → Type 0
IsWindow w = IsMonthDay w.start.month w.start.day × IsMonthDay w.end.month w.end.day

abbrev pub IsSeason : OperatingSeason → Type 0
IsSeason s = IsWindow s.window

-- A set of weekdays, in the order of the week.
abbrev pub IsWeekdays : List Weekday → Type 0
IsWeekdays ws = sorted_weekdays ws ≡ ws

abbrev pub IsRule : ScheduleRule → Type 0
IsRule r = IsWeekdays r.weekdays × IsRange r.time × Given IsWindow r.season

abbrev pub IsSession : ResolvedSession → Type 0
IsSession s = IsRange s.time

-- The code is the one that the reason gives, as it is unless a caller states another one.
abbrev pub IsException : (String → String) → ScheduleException → Type 0
IsException casefold e =
    All IsSession e.sessions × (classify_closure casefold (some e.reason) ≡ (e.code, e.params))

abbrev pub IsClosure : (String → String) → ClosureRange → Type 0
IsClosure casefold c = classify_closure casefold (some c.reason) ≡ (c.code, c.params)

pub time_range-of_IsRange : (r : TimeRange) → IsRange r → time_range r.start r.end ≡ some r
unfolding time_range
time_range-of_IsRange r h = ground arith

pub weekdays_from-to : (ws : List Weekday) → traverse weekday_from (map weekday_to ws) ≡ some ws
weekdays_from-to = traverse-map_all weekday_from weekday_to weekday_from-to

pub season_from-to : (w : AnnualWindow) → IsWindow w → season_from_dto (season_to_dto w) ≡ some w
unfolding season_from_dto season_to_dto
season_from-to w (s, e) = rw (
  month_day-of_IsMonthDay w.start.month w.start.day s,
  month_day-of_IsMonthDay w.end.month w.end.day e,
  precision_from-to w.precision,
)

pub operating_season_from-to :
    (s : OperatingSeason)
    → IsWindow s.window
    → operating_season_from_dto (operating_season_to_dto s) ≡ some s
unfolding operating_season_from_dto operating_season_to_dto
operating_season_from-to s h = rw (season_from-to s.window h, weather_from-to s.weather)

pub rule_from-to : (r : ScheduleRule) → IsRule r → rule_from_dto (rule_to_dto r) ≡ some r
unfolding rule_from_dto rule_to_dto
rule_from-to r (days, time, season) = rw (
  weekdays_from-to (sorted_weekdays r.weekdays),
  time_range-of_IsRange r.time time,
  scope_from-to r.scope,
  if_given_try-if_given season_from_dto season_to_dto IsWindow season_from-to r.season season,
  weather_from-to r.weather,
  access_from-to r.access,
  days,
  days,
)

pub resolved_from-to :
    (s : ResolvedSession) → IsSession s → resolved_from_dto (resolved_to_dto s) ≡ some s
unfolding resolved_from_dto resolved_to_dto
resolved_from-to s h =
    rw (time_range-of_IsRange s.time h, weather_from-to s.weather, access_from-to s.access)

pub exception_from-to :
    (casefold : String → String) (e : ScheduleException)
    → IsException casefold e
    → exception_from_dto casefold (exception_to_dto e) ≡ some e
unfolding exception_from_dto exception_to_dto schedule_exception
exception_from-to casefold e (sessions, code) = rw (
  traverse-map resolved_from_dto resolved_to_dto IsSession resolved_from-to e.sessions sessions,
  code,
)

pub closure_from-to :
    (casefold : String → String) (c : ClosureRange)
    → IsClosure casefold c
    → closure_from_dto casefold (closure_to_dto c) ≡ c
unfolding closure_from_dto closure_to_dto closure_range
closure_from-to casefold c code = rw code
