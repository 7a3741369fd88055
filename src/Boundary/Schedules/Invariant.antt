-- ===== src/Boundary/Schedules/Invariant.antt =====
-- Schedules that src/swimzh/boundary/mapping.py makes of DTOs are as the constructors allow them.
use swimming_in_zurich.Base.{
  ℕ, leb, String, refl, sym, subst, inl, inr, Bool-cases, Option-cases, arith, All,
}
use swimming_in_zurich.Base.Maybe.{
  Any, Any-Given, Given, traverse, if_given_try, >>=-Given, traverse-Given, if_given_try-Given,
}
use swimming_in_zurich.Schedule.{time_range, MonthDay, month_day, schedule_exception, closure_range}
use swimming_in_zurich.Schedule.Window.{IsMonthDay, month_day-iff_IsMonthDay}
use swimming_in_zurich.Boundary.Dto.{
  SeasonDto, RuleDto, ResolvedSessionDto, ExceptionDto, ClosureDto, OperatingSeasonDto,
}
use swimming_in_zurich.Boundary.Weekdays.{sorted_weekdays_idem}
use swimming_in_zurich.Boundary.ScheduleTokens.{
  weekday_from, scope_from, precision_from, weather_from,
}
use swimming_in_zurich.Boundary.Schedules.{
  season_from_dto, operating_season_from_dto, rule_from_dto, resolved_from_dto, exception_from_dto,
  closure_from_dto,
}
use swimming_in_zurich.Boundary.Schedules.RoundTrip.{
  IsRange, IsWindow, IsRule, IsSession, IsException, IsClosure, IsSeason,
}

pub time_range-Given : (lo hi : ℕ) → Given IsRange (time_range lo hi)
unfolding time_range
time_range-Given lo hi = elim (Bool-cases (leb hi lo)) [
  | inl t ↦ rw t tt
  | inr t ↦ rw t (ground arith)
]

month_day-Given : (m d : ℕ) → Given (λ x. IsMonthDay x.month x.day) (month_day m d)
month_day-Given m d = elim (Option-cases (month_day m d)) [
  | inl e ↦ rw e tt
  | inr (x, e) ↦ rw e (
      let (h, same) = (month_day-iff_IsMonthDay m d x).0 e in
      subst (λ (y : MonthDay). IsMonthDay y.month y.day) (sym same) h)
]

pub season_from_dto-Given : (dto : SeasonDto) → Given IsWindow (season_from_dto dto)
unfolding season_from_dto
season_from_dto-Given dto =
    >>=-Given (λ (x : MonthDay). IsMonthDay x.month x.day) IsWindow
      (month_day dto.start_month dto.start_day) _ (month_day-Given dto.start_month dto.start_day)
      λ s p.
        >>=-Given (λ (x : MonthDay). IsMonthDay x.month x.day) IsWindow
          (month_day dto.end_month dto.end_day) _ (month_day-Given dto.end_month dto.end_day)
          λ e q.
            >>=-Given Any IsWindow (precision_from dto.precision) _
              (Any-Given (precision_from dto.precision)) (λ _ _. (p, q))

pub operating_season_from_dto-Given :
    (dto : OperatingSeasonDto) → Given IsSeason (operating_season_from_dto dto)
unfolding operating_season_from_dto
operating_season_from_dto-Given dto =
    >>=-Given IsWindow IsSeason (season_from_dto dto.window) _ (season_from_dto-Given dto.window)
      λ w h.
        >>=-Given Any IsSeason (weather_from dto.weather) _ (Any-Given (weather_from dto.weather))
          λ _ _. h

pub rule_from_dto-Given : (dto : RuleDto) → Given IsRule (rule_from_dto dto)
unfolding rule_from_dto
rule_from_dto-Given dto =
    >>=-Given Any IsRule (traverse weekday_from dto.weekdays) _
      (Any-Given (traverse weekday_from dto.weekdays))
      λ ws _.
        >>=-Given IsRange IsRule (time_range dto.start dto.end) _
          (time_range-Given dto.start dto.end)
          λ t range.
            >>=-Given Any IsRule (scope_from dto.scope) _ (Any-Given (scope_from dto.scope)) λ _ _.
              >>=-Given (Given IsWindow) IsRule (if_given_try season_from_dto dto.season) _
                (if_given_try-Given IsWindow season_from_dto season_from_dto-Given dto.season)
                λ _ season.
                  >>=-Given Any IsRule (weather_from dto.weather) _
                    (Any-Given (weather_from dto.weather))
                    λ _ _. (sorted_weekdays_idem ws, range, season)

resolved_from_dto-Given : (dto : ResolvedSessionDto) → Given IsSession (resolved_from_dto dto)
unfolding resolved_from_dto
resolved_from_dto-Given dto =
    >>=-Given IsRange IsSession (time_range dto.start dto.end) _
      (time_range-Given dto.start dto.end)
      λ t range.
        >>=-Given Any IsSession (weather_from dto.weather) _ (Any-Given (weather_from dto.weather))
          λ _ _. range

pub exception_from_dto-Given :
    (casefold : String → String) (dto : ExceptionDto)
    → Given (IsException casefold) (exception_from_dto casefold dto)
unfolding exception_from_dto schedule_exception
exception_from_dto-Given casefold dto =
    >>=-Given (All IsSession) (IsException casefold) (traverse resolved_from_dto dto.sessions) _
      (traverse-Given IsSession resolved_from_dto resolved_from_dto-Given dto.sessions)
      λ ss h. (h, refl)

pub closure_from_dto-IsClosure :
    (casefold : String → String) (dto : ClosureDto)
    → IsClosure casefold (closure_from_dto casefold dto)
unfolding closure_from_dto closure_range
closure_from_dto-IsClosure casefold dto = refl
