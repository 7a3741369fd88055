-- ===== src/Schedule/Window.antt =====
-- The year-free windows of src/swimzh/domain/schedule.py: wrapping, whole months, validity.
use swimming_in_zurich.Base.{
  ℕ, ◌+◌, ◌-◌, ◌≤◌, true, not, leb, ◌==◌, if◌then◌else◌, some, ◌≡◌, ◌≢◌, ◌↔◌, ◌⊎◌, arith, le→leb,
  leb→le,
}
use swimming_in_zurich.Dates.{Date}
use swimming_in_zurich.Schedule.{
  DatePrecision, MonthDay, AnnualWindow, month_day, whole_months, days_in_month, within_months,
  within_days, in_window,
}

-- A month and a day of a leap year, by the names of the short months.
abbrev pub IsMonthDay : ℕ → ℕ → Type 0
IsMonthDay m d =
    (1 ≤ m)
    × (m ≤ 12)
    × (1 ≤ d)
    × (d ≤ 31)
    × (((m ≡ 4) ⊎ (m ≡ 6) ⊎ (m ≡ 9) ⊎ (m ≡ 11)) → d ≤ 30)
    × (m ≡ 2 → d ≤ 29)

-- The length of a month, as the code tabulates it, is the greatest day.
days_in_month-least : (m d : ℕ) → IsMonthDay m d → d ≤ days_in_month m
unfolding days_in_month
days_in_month-least m d (a, b, c, e, short, feb) = ground (arith, short, feb)

days_in_month-IsMonthDay : (m d : ℕ) → 1 ≤ m → m ≤ 12 → 1 ≤ d → d ≤ days_in_month m → IsMonthDay m d
unfolding days_in_month
days_in_month-IsMonthDay m d a b c e =
    (a, b, c, ground (arith, e), λ short. ground (arith, e, short), λ feb. ground (arith, e, feb))

month_day-inversion :
    (m d : ℕ) {x : MonthDay}
    → month_day m d ≡ some x
    → (leb 1 m ≡ true)
      × (leb m 12 ≡ true)
      × (leb 1 d ≡ true)
      × (leb d (days_in_month m) ≡ true)
      × (x ≡ record { month = m; day = d })
unfolding month_day
month_day-inversion m d h = ground arith

pub month_day-of_IsMonthDay :
    (m d : ℕ) → IsMonthDay m d → month_day m d ≡ some (record { month = m; day = d })
unfolding month_day
month_day-of_IsMonthDay m d h = rw (
  le→leb 1 m h.0,
  le→leb m 12 h.1,
  le→leb 1 d h.2,
  le→leb d (days_in_month m) (days_in_month-least m d h),
)

-- `MonthDay` accepts exactly the months 1 to 12 with the days 1 to 31, up to 30 in April, June,
-- September and November and up to 29 in February, and keeps both as they are.
pub month_day-iff_IsMonthDay :
    (m d : ℕ) (x : MonthDay)
    → (month_day m d ≡ some x) ↔ (IsMonthDay m d × (x ≡ record { month = m; day = d }))
month_day-iff_IsMonthDay m d x = (accepted, λ (h, e). rw e (month_day-of_IsMonthDay m d h))
  where
    accepted : month_day m d ≡ some x → IsMonthDay m d × (x ≡ record { month = m; day = d })
    accepted h =
        let (a, b, c, e, i) = month_day-inversion m d h in
        (
          days_in_month-IsMonthDay m d (leb→le 1 m a) (leb→le m 12 b) (leb→le 1 d c)
              (leb→le d (days_in_month m) e),
          i,
        )

-- The bounds of a month range read as days: the same window at day precision.
abbrev pub by_day : AnnualWindow → AnnualWindow
by_day w = record w { precision = DatePrecision.day }

abbrev months_window : ℕ → ℕ → AnnualWindow
months_window from until = record {
  start = record { month = from; day = 1 };
  end = record { month = until; day = days_in_month until };
  precision = DatePrecision.month;
}

whole_months-inversion :
    (from until : ℕ) {w : AnnualWindow}
    → whole_months from until ≡ some w
    → w ≡ months_window from until
unfolding whole_months month_day
whole_months-inversion from until h = ground arith

within_whole_months :
    (m d from until : ℕ) (dim : ℕ → ℕ)
    → 1 ≤ d
    → d ≤ dim m
    → 1 ≤ dim until
    → within_months m from until
      ≡ within_days
          (record { month = m; day = d })
          (record { month = from; day = 1 })
          (record { month = until; day = dim until })
unfolding within_months within_days
within_whole_months m d from until dim low high some_day = ground arith

days_in_month-pos : (m : ℕ) → 1 ≤ days_in_month m
unfolding days_in_month
days_in_month-pos m = ground arith

-- A window built by `whole_months` holds the same dates whether its precision is read or its
-- first and last day are taken literally.
pub whole_months-by_day :
    (from until : ℕ) (w : AnnualWindow) (d : Date)
    → whole_months from until ≡ some w
    → IsMonthDay d.month d.day
    → in_window w d ≡ in_window (by_day w) d
unfolding in_window
whole_months-by_day from until w d h valid = rw (whole_months-inversion from until h) (
    within_whole_months d.month d.day from until days_in_month valid.2
      (days_in_month-least d.month d.day valid) (days_in_month-pos until))

-- The months before and after, on the cyclic year.
abbrev pub next_month : ℕ → ℕ
next_month m = if m == 12 then 1 else m + 1

abbrev pub previous_month : ℕ → ℕ
previous_month m = if m == 1 then 12 else m - 1

-- The months outside a window are the window from the month after its end to the month before its
-- start, whether or not either of the two wraps New Year, unless the window is the whole year.
pub within_months-complement :
    (key start end : ℕ)
    → (1 ≤ key) × (key ≤ 12)
    → (1 ≤ start) × (start ≤ 12)
    → (1 ≤ end) × (end ≤ 12)
    → next_month end ≢ start
    → within_months key start end ≡ not (within_months key (next_month end) (previous_month start))
unfolding within_months
within_months-complement key start end k s e partial = ground arith
