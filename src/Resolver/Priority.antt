-- ===== src/Resolver/Priority.antt =====
-- The order of priorities in `resolve_hours` (src/swimzh/domain/resolver.py): closures, exceptions,
-- the season gate.
use swimming_in_zurich.Base.{
  Bool, true, false, if◌then◌else◌, Option, none, some, List, [], ◌∷◌, String, ◌≡◌, ◌≢◌, refl, ◌↔◌,
  inl, inr, arith, In, find_first, find_first-In, find_first-none, Option-cases, Bool-cases, sym,
  ◌∙◌,
}
use swimming_in_zurich.Dates.{Date, date_eq, date_eq_iff}
use swimming_in_zurich.Calendar.{DayContext, ZurichCalendar, context}
use swimming_in_zurich.Schedule.{
  Weekday, weekday_on, sunday, Weather, ScheduleRule, ScheduleException, ClosureRange,
  closure_contains, in_window, HolidayPolicy, ResolvedSession, DaySchedule, open_day,
  open_unscheduled_day, closed_day,
}
use swimming_in_zurich.Models.{Facility, OperatingSeason}
use swimming_in_zurich.Resolver.{
  find_exception, season_gate, recurring_day, weekly_day, holiday_day, empty_day, resolve_hours,
}

-- No closure of the facility holds the date.
abbrev pub NoClosure : Facility → Date → Type 0
NoClosure f d = (c : ClosureRange) → In c f.closures → closure_contains c d ≡ false

-- No exception is for the date.
abbrev pub NoException : List ScheduleException → Date → Type 0
NoException es d = (e : ScheduleException) → In e es → e.date ≢ d

find_first-absent :
    {A : Type 0} (p : A → Bool) (xs : List A)
    → ((x : A) → In x xs → p x ≡ false)
    → find_first p xs ≡ none
find_first-absent p xs h = elim (Option-cases (find_first p xs)) [
  | inl e ↦ e
  | inr (x, e) ↦ let (m, t) = find_first-In p x xs e in absurd (impossible (h x m) t)
]
  where
    impossible : {b : Bool} → b ≡ false → b ≡ true → ⊥
    impossible e t = cc

module _ (casefold : String → String) (facility : Facility) (rules : List ScheduleRule)
    (exceptions : List ScheduleException) (d : Date) (calendar : ZurichCalendar) where
  abbrev pub answer : DaySchedule
  answer = resolve_hours casefold facility rules exceptions d calendar

  -- A date inside any closure of the facility is a closed day, whatever else is published, and it
  -- carries the code and the parameters of such a closure.
  pub resolve_hours-closure :
      (c : ClosureRange)
      → In c facility.closures
      → closure_contains c d ≡ true
      → (first : ClosureRange) × In first facility.closures
        × (closure_contains first d ≡ true)
        × (answer ≡ closed_day first.code first.params)
  unfolding resolve_hours
  resolve_hours-closure c m h =
      elim (Option-cases (find_first (λ x. closure_contains x d) facility.closures)) [
        | inl e ↦
            absurd (clash (find_first-none (λ x. closure_contains x d) c facility.closures e m))
        | inr (x, e) ↦
            let (listed, holds) = find_first-In (λ y. closure_contains y d) x facility.closures e in
            (x, listed, holds, rw e)
      ]
    where
      clash : closure_contains c d ≡ false → ⊥
      clash e = cc

  closures_pass :
      NoClosure facility d → find_first (λ c. closure_contains c d) facility.closures ≡ none
  closures_pass h = find_first-absent (λ c. closure_contains c d) facility.closures h

  exceptions_pass : NoException exceptions d → find_exception exceptions d ≡ none
  unfolding find_exception
  exceptions_pass h = find_first-absent (λ e. date_eq e.date d) exceptions other
    where
      other : (e : ScheduleException) → In e exceptions → date_eq e.date d ≡ false
      other e m = elim (Bool-cases (date_eq e.date d)) [
        | inl t ↦ absurd (h e m ((date_eq_iff e.date d).0 t))
        | inr t ↦ t
      ]

  -- Outside closures, an exception of the date decides alone: the recurring rules, the season and
  -- the holiday policy are not looked at.
  pub resolve_hours-exception :
      (e : ScheduleException)
      → NoClosure facility d
      → In e exceptions
      → e.date ≡ d
      → (first : ScheduleException) × In first exceptions
        × (first.date ≡ d)
        × (answer ≡ (
            if first.closed
            then closed_day first.code first.params
            else open_day first.sessions false))
  unfolding resolve_hours find_exception
  resolve_hours-exception e quiet m same =
      elim (Option-cases (find_first (λ x. date_eq x.date d) exceptions)) [
        | inl n ↦ absurd (clash (find_first-none (λ x. date_eq x.date d) e exceptions n m))
        | inr (x, s) ↦
            let (listed, holds) = find_first-In (λ y. date_eq y.date d) x exceptions s in
            (x, listed, (date_eq_iff x.date d).0 holds, rw (closures_pass quiet, s))
      ]
    where
      clash : date_eq e.date d ≡ false → ⊥
      clash n = cc ((date_eq_iff e.date d).1 same)

  -- With no closure and no exception the season gate and the recurring rules decide.
  pub resolve_hours-quiet :
      NoClosure facility d
      → NoException exceptions d
      → answer
        ≡ season_gate facility.operating_season rules d
            (recurring_day casefold facility.public_holiday_policy rules (context calendar d) d)
  unfolding resolve_hours
  resolve_hours-quiet q x = rw (closures_pass q, exceptions_pass x)

-- Steps 4 and 5 never produce the variant that has no hours.
weekly_day-scheduled :
    (rules : List ScheduleRule) (w : Weekday) (ctx : DayContext) (d : Date) (u : Bool) (v : Weather)
    → weekly_day rules w ctx d u ≢ open_unscheduled_day v
unfolding weekly_day empty_day
weekly_day-scheduled rules w ctx d u v h = ground arith

recurring_day-scheduled :
    (casefold : String → String) (p : Option HolidayPolicy) (rules : List ScheduleRule)
    (ctx : DayContext) (d : Date) (v : Weather)
    → recurring_day casefold p rules ctx d ≢ open_unscheduled_day v
unfolding recurring_day holiday_day
recurring_day-scheduled casefold none rules ctx d v h = ground (
  arith,
  weekly_day-scheduled rules (weekday_on d) ctx d true v,
  weekly_day-scheduled rules (weekday_on d) ctx d false v,
)
recurring_day-scheduled casefold (some HolidayPolicy.normal) rules ctx d v h =
    ground (arith, weekly_day-scheduled rules (weekday_on d) ctx d false v)
recurring_day-scheduled casefold (some HolidayPolicy.sunday_schedule) rules ctx d v h = ground (
  arith,
  weekly_day-scheduled rules sunday ctx d false v,
  weekly_day-scheduled rules (weekday_on d) ctx d false v,
)
recurring_day-scheduled casefold (some HolidayPolicy.closed) rules ctx d v h =
    ground (arith, weekly_day-scheduled rules (weekday_on d) ctx d false v)

-- When a day is open with no hours published: inside the stated season of a rule-less schedule.
abbrev pub Unscheduled :
    Facility → List ScheduleRule → List ScheduleException → Date → Weather → Type 0
Unscheduled facility rules exceptions d w =
    NoClosure facility d
    × NoException exceptions d
    × (rules ≡ [])
    × ((season : OperatingSeason) × (facility.operating_season ≡ some season)
        × (in_window season.window d ≡ true)
        × (w ≡ season.weather))

season_gate-unscheduled :
    (s : Option OperatingSeason) (rules : List ScheduleRule) (d : Date) (rest : DaySchedule)
    (w : Weather)
    → ((v : Weather) → rest ≢ open_unscheduled_day v)
    → season_gate s rules d rest ≡ open_unscheduled_day w
    → (rules ≡ [])
      × ((season : OperatingSeason) × (s ≡ some season)
          × (in_window season.window d ≡ true)
          × (w ≡ season.weather))
unfolding season_gate
season_gate-unscheduled none rules d rest w h e = absurd (h w e)
season_gate-unscheduled (some season) [] d rest w h e =
    (refl, (season, refl, ground arith, ground arith))
season_gate-unscheduled (some season) (r ∷ rs) d rest w h e = absurd (ground (arith, h w))

season_gate_open :
    {s : Option OperatingSeason} (rules : List ScheduleRule) (d : Date) (rest : DaySchedule)
    (w : Weather)
    → rules ≡ []
    → (season : OperatingSeason) × (s ≡ some season)
      × (in_window season.window d ≡ true)
      × (w ≡ season.weather)
    → season_gate s rules d rest ≡ open_unscheduled_day w
unfolding season_gate
season_gate_open rules d rest w none_left (season, e, inside, same) =
    rw (e, none_left, inside, same)

module _ (casefold : String → String) (facility : Facility) (rules : List ScheduleRule)
    (exceptions : List ScheduleException) (d : Date) (calendar : ZurichCalendar) where
  quiet_of_unscheduled :
      (w : Weather)
      → resolve_hours casefold facility rules exceptions d calendar ≡ open_unscheduled_day w
      → NoClosure facility d × NoException exceptions d
  unfolding resolve_hours find_exception
  quiet_of_unscheduled w h = (no_closure, no_exception)
    where
      gates :
          (find_first (λ c. closure_contains c d) facility.closures ≡ none)
          × (find_first (λ e. date_eq e.date d) exceptions ≡ none)
      gates = ground arith

      no_closure : NoClosure facility d
      no_closure c m = find_first-none (λ x. closure_contains x d) c facility.closures gates.0 m

      no_exception : NoException exceptions d
      no_exception e m same =
          clash (find_first-none (λ x. date_eq x.date d) e exceptions gates.1 m)
            ((date_eq_iff e.date d).1 same)
        where
          clash : {b : Bool} → b ≡ false → b ≡ true → ⊥
          clash n t = cc

  -- A day is open without hours exactly when no closure or exception applies, the schedule has no
  -- rule, and the date lies inside the facility's stated operating season; the weather condition is
  -- then the season's.
  pub resolve_hours-Unscheduled :
      (w : Weather)
      → (resolve_hours casefold facility rules exceptions d calendar ≡ open_unscheduled_day w)
        ↔ Unscheduled facility rules exceptions d w
  resolve_hours-Unscheduled w = (to, from)
    where
      recurring : DaySchedule
      recurring = recurring_day casefold facility.public_holiday_policy rules (context calendar d) d

      to :
          resolve_hours casefold facility rules exceptions d calendar ≡ open_unscheduled_day w
          → Unscheduled facility rules exceptions d w
      to h =
          let (quiet, plain) = quiet_of_unscheduled w h in
          let (no_rule, season) =
            season_gate-unscheduled facility.operating_season rules d _ w
              (recurring_day-scheduled casefold facility.public_holiday_policy rules
                (context calendar d) d)
              (sym (resolve_hours-quiet casefold facility rules exceptions d calendar quiet plain)
                ∙ h) in
          (quiet, plain, no_rule, season)

      from :
          Unscheduled facility rules exceptions d w
          → resolve_hours casefold facility rules exceptions d calendar ≡ open_unscheduled_day w
      from (quiet, plain, no_rule, season) =
          resolve_hours-quiet casefold facility rules exceptions d calendar quiet plain
          ∙ season_gate_open rules d recurring w no_rule season

-- A day that is open has no closure.
pub open_day-NoClosure :
    (casefold : String → String) (facility : Facility) (rules : List ScheduleRule)
    (exceptions : List ScheduleException) (d : Date) (calendar : ZurichCalendar)
    (sessions : List ResolvedSession) (u : Bool)
    → resolve_hours casefold facility rules exceptions d calendar ≡ open_day sessions u
    → NoClosure facility d
unfolding resolve_hours
open_day-NoClosure casefold facility rules exceptions d calendar sessions u h c m =
    find_first-none (λ x. closure_contains x d) c facility.closures (ground arith) m
