-- ===== src/Boundary/Schedules.antt =====
-- src/swimzh/boundary/mapping.py: access, seasons, rules, sessions, exceptions and closures, to their
-- DTOs and back. `none` is a ValueError of a constructor or a KeyError of a token table.
pub mod RoundTrip
pub mod Invariant
use swimming_in_zurich.Base.{ℕ, Bool, Option, none, some, List, [], ◌∷◌, String, map}
use swimming_in_zurich.Base.Maybe.{◌>>=◌, if_given, if_given_try, traverse}
use swimming_in_zurich.Access.{
  SessionAccess, public_swim, lane_swim, family_time, women_only, seniors_only, school_reserved,
  club_reserved, adults_only, girls_only, gender_diverse, accompanied_children,
}
use swimming_in_zurich.Closure.{special}
use swimming_in_zurich.Schedule.{
  time_range, MonthDay, month_day, AnnualWindow, ScheduleRule, ResolvedSession, ScheduleException,
  schedule_exception, ClosureRange, closure_range,
}
use swimming_in_zurich.Models.{OperatingSeason}
use swimming_in_zurich.Panel.{sorted_weekdays}
use swimming_in_zurich.Boundary.ScheduleTokens.{
  weekday_to, weekday_from, scope_to, scope_from, precision_to, precision_from, weather_to,
  weather_from,
}
use swimming_in_zurich.Boundary.Dto.{
  AccessDto, SeasonDto, OperatingSeasonDto, RuleDto, ResolvedSessionDto, ExceptionDto, ClosureDto,
}

unfoldable pub access_from_dto : AccessDto → SessionAccess
access_from_dto AccessDto.public = public_swim
access_from_dto (AccessDto.lane_swim note) = lane_swim note
access_from_dto (AccessDto.family note) = family_time note
access_from_dto (AccessDto.women_only note) = women_only note
access_from_dto (AccessDto.seniors_only min_age) = seniors_only min_age
access_from_dto AccessDto.school_reserved = school_reserved
access_from_dto (AccessDto.club_reserved club) = club_reserved club
access_from_dto (AccessDto.adults_only min_age note) = adults_only min_age note
access_from_dto AccessDto.girls_only = girls_only
access_from_dto (AccessDto.gender_diverse min_age) = gender_diverse min_age
access_from_dto AccessDto.accompanied_children = accompanied_children

unfoldable pub access_to_dto : SessionAccess → AccessDto
access_to_dto public_swim = AccessDto.public
access_to_dto (lane_swim note) = AccessDto.lane_swim note
access_to_dto (family_time note) = AccessDto.family note
access_to_dto (women_only note) = AccessDto.women_only note
access_to_dto (seniors_only min_age) = AccessDto.seniors_only min_age
access_to_dto school_reserved = AccessDto.school_reserved
access_to_dto (club_reserved club) = AccessDto.club_reserved club
access_to_dto (adults_only min_age note) = AccessDto.adults_only min_age note
access_to_dto girls_only = AccessDto.girls_only
access_to_dto (gender_diverse min_age) = AccessDto.gender_diverse min_age
access_to_dto accompanied_children = AccessDto.accompanied_children

unfoldable pub season_from_dto : SeasonDto → Option AnnualWindow
season_from_dto dto = do
  start ← month_day dto.start_month dto.start_day
  end ← month_day dto.end_month dto.end_day
  precision ← precision_from dto.precision
  some (record { start = start; end = end; precision = precision })

unfoldable pub season_to_dto : AnnualWindow → SeasonDto
season_to_dto window = record {
  start_month = window.start.month;
  start_day = window.start.day;
  end_month = window.end.month;
  end_day = window.end.day;
  precision = precision_to window.precision;
}

unfoldable pub operating_season_from_dto : OperatingSeasonDto → Option OperatingSeason
operating_season_from_dto dto = do
  window ← season_from_dto dto.window
  weather ← weather_from dto.weather
  some (record { window = window; weather = weather })

unfoldable pub operating_season_to_dto : OperatingSeason → OperatingSeasonDto
operating_season_to_dto season = record {
  window = season_to_dto season.window;
  weather = weather_to season.weather;
}

-- A frozenset of weekdays is built in the order of the week.
unfoldable pub rule_from_dto : RuleDto → Option ScheduleRule
rule_from_dto dto = do
  weekdays ← traverse weekday_from dto.weekdays
  time ← time_range dto.start dto.end
  scope ← scope_from dto.scope
  season ← if_given_try season_from_dto dto.season
  weather ← weather_from dto.weather
  some (record {
    weekdays = sorted_weekdays weekdays;
    time = time;
    access = access_from_dto dto.access;
    scope = scope;
    source_text = dto.source_text;
    season = season;
    weather = weather;
  })

unfoldable pub rule_to_dto : ScheduleRule → RuleDto
rule_to_dto rule = record {
  weekdays = map weekday_to (sorted_weekdays rule.weekdays);
  start = rule.time.start;
  end = rule.time.end;
  access = access_to_dto rule.access;
  scope = scope_to rule.scope;
  source_text = rule.source_text;
  season = if_given season_to_dto rule.season;
  weather = weather_to rule.weather;
}

unfoldable pub resolved_from_dto : ResolvedSessionDto → Option ResolvedSession
resolved_from_dto dto = do
  time ← time_range dto.start dto.end
  weather ← weather_from dto.weather
  some (record { time = time; access = access_from_dto dto.access; weather = weather })

unfoldable pub resolved_to_dto : ResolvedSession → ResolvedSessionDto
resolved_to_dto session = record {
  start = session.time.start;
  end = session.time.end;
  access = access_to_dto session.access;
  weather = weather_to session.weather;
}

unfoldable pub exception_from_dto : (String → String) → ExceptionDto → Option ScheduleException
exception_from_dto casefold dto = do
  sessions ← traverse resolved_from_dto dto.sessions
  some (schedule_exception casefold dto.date dto.closed dto.reason special [] sessions)

unfoldable pub exception_to_dto : ScheduleException → ExceptionDto
exception_to_dto exc = record {
  date = exc.date;
  closed = exc.closed;
  reason = exc.reason;
  sessions = map resolved_to_dto exc.sessions;
}

unfoldable pub closure_from_dto : (String → String) → ClosureDto → ClosureRange
closure_from_dto casefold dto = closure_range casefold dto.start dto.end dto.reason special []

unfoldable pub closure_to_dto : ClosureRange → ClosureDto
closure_to_dto closure = record {
  start = closure.start;
  end = closure.end;
  reason = closure.reason;
}
