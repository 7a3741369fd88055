-- ===== src/Tests/Windows.antt =====
-- The theorems of Schedule.Window at concrete windows.
use swimming_in_zurich.Base.{true, not, some, ◌≡◌, refl, ◌↔◌, arith}
use swimming_in_zurich.Dates.{date}
use swimming_in_zurich.Schedule.{
  MonthDay, month_day, whole_months, days_in_month, within_months, in_window, AnnualWindow,
  DatePrecision,
}
use swimming_in_zurich.Schedule.Window.{
  IsMonthDay, month_day-iff_IsMonthDay, by_day, whole_months-by_day, next_month, previous_month,
  within_months-complement,
}

month_day-iff_IsMonthDay_example : (month_day 2 29 ≡ some (record { month = 2; day = 29 })) ↔ (
    IsMonthDay 2 29
    × ◌≡◌ {A = MonthDay} (record { month = 2; day = 29 }) (record { month = 2; day = 29 }))
month_day-iff_IsMonthDay_example = month_day-iff_IsMonthDay 2 29 (record { month = 2; day = 29 })

-- October to April.
abbrev winter : AnnualWindow
winter = record {
  start = record { month = 10; day = 1 };
  end = record { month = 4; day = 30 };
  precision = DatePrecision.month;
}

winter_built : whole_months 10 4 ≡ some winter
unfolding whole_months
winter_built = refl

new_year : in_window winter (date 2027 1 1) ≡ true
unfolding in_window
new_year = refl

whole_months-by_day_example :
    in_window winter (date 2027 4 30) ≡ in_window (by_day winter) (date 2027 4 30)
unfolding days_in_month
whole_months-by_day_example =
    whole_months-by_day 10 4 winter (date 2027 4 30) winter_built (omega arith)

within_months-complement_example :
    within_months 11 10 4 ≡ not (within_months 11 (next_month 4) (previous_month 10))
within_months-complement_example =
    within_months-complement 11 10 4 (omega arith) (omega arith) (omega arith) (λ e. omega arith)
