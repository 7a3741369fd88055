-- ===== src/Resolver/Sessions.antt =====
-- The recurring part of `resolve_hours` (src/swimzh/domain/resolver.py): which sessions a day has.
use swimming_in_zurich.Base.{
  Bool, true, false, not, ◌&&◌, if◌then◌else◌, Option, none, some, List, String, ◌≡◌, refl, ◌↔◌,
  inl, inr, arith, In, keep, any, map, nonempty, is_none, In-map, In-map_of, In-keep, In-keep_of,
  any-of_In, In-of_any, ◌==◌, ==_iff, sym, ◌∙◌, Bool-cases,
}
use swimming_in_zurich.Base.Sort.{sort, Ascending, In-sort, In-sort_of, sort-Ascending}
use swimming_in_zurich.Dates.{Date}
use swimming_in_zurich.Calendar.{DayContext, ZurichCalendar, context}
use swimming_in_zurich.Schedule.{
  Weekday, sunday, weekday_value, weekday_on, on_weekday, DayScope, always, school_term,
  school_holiday, HolidayPolicy, sunday_schedule, AnnualWindow, ScheduleRule, ScheduleException,
  ResolvedSession, in_window, DaySchedule, open_day,
}
use swimming_in_zurich.Models.{Facility, OperatingSeason}
use swimming_in_zurich.Resolver.{
  season_runs, scope_applies, in_season, rule_runs, session_of, starts_before, sessions_for_weekday,
  empty_day, weekly_day, recurring_day, holiday_day, resolve_hours, season_gate,
}
use swimming_in_zurich.Resolver.Priority.{
  NoClosure, NoException, resolve_hours-quiet, open_day-NoClosure,
}

-- When a recurring rule runs on a date, with no reference to the code.
pub data InScope (ctx : DayContext) : DayScope → Type 0 where
  any_day : InScope ctx always
  in_term : ctx.is_school_holiday ≡ false → InScope ctx school_term
  in_holidays : ctx.is_school_holiday ≡ true → InScope ctx school_holiday

pub data InSeason (d : Date) : Option AnnualWindow → Type 0 where
  all_year : InSeason d none
  within : {w : AnnualWindow} → in_window w d ≡ true → InSeason d (some w)

pub record Runs (weekday : Weekday) (ctx : DayContext) (d : Date) (rule : ScheduleRule)
    : Type 0 where
  pub on_day : In weekday rule.weekdays
  pub scoped : InScope ctx rule.scope
  pub seasoned : InSeason d rule.season

weekday_value_injective : (v w : Weekday) → weekday_value v ≡ weekday_value w → v ≡ w
unfolding weekday_value
weekday_value_injective v w h = ground arith

on_weekday-iff_In : (w : Weekday) (ws : List Weekday) → (on_weekday w ws ≡ true) ↔ In w ws
unfolding on_weekday
on_weekday-iff_In w ws = (to, from)
  where
    to : any (λ v. weekday_value w == weekday_value v) ws ≡ true → In w ws
    to h =
        let (v, m, e) = In-of_any (λ v. weekday_value w == weekday_value v) ws h in
        rw (weekday_value_injective w v ((==_iff _ _).0 e)) m

    from : In w ws → any (λ v. weekday_value w == weekday_value v) ws ≡ true
    from m = any-of_In (λ v. weekday_value w == weekday_value v) w ws m ((==_iff _ _).1 refl)

InScope-iff : (ctx : DayContext) (s : DayScope) → (scope_applies s ctx ≡ true) ↔ InScope ctx s
unfolding scope_applies
InScope-iff ctx always = (λ h. any_day, λ h. refl)
InScope-iff ctx school_term = (λ h. in_term (ground arith), not_holiday)
  where
    not_holiday : InScope ctx school_term → not ctx.is_school_holiday ≡ true
    not_holiday (in_term e) = rw e
InScope-iff ctx school_holiday = (λ h. in_holidays h, holiday)
  where
    holiday : InScope ctx school_holiday → ctx.is_school_holiday ≡ true
    holiday (in_holidays e) = e

InSeason-iff : (d : Date) (rule : ScheduleRule) → (in_season rule d ≡ true) ↔ InSeason d rule.season
unfolding in_season
InSeason-iff d rule = by_season rule.season
  where
    by_season : (s : Option AnnualWindow) → (season_runs s d ≡ true) ↔ InSeason d s
    by_season none = (λ h. all_year, λ h. refl)
    by_season (some w) = (λ h. within h, inside)
      where
        inside : InSeason d (some w) → in_window w d ≡ true
        inside (within e) = e

and-true : (a b c : Bool) → (a && (b && c)) ≡ true → (a ≡ true) × (b ≡ true) × (c ≡ true)
and-true a b c h = ground arith

true-and : {a b c : Bool} → a ≡ true → b ≡ true → c ≡ true → (a && (b && c)) ≡ true
true-and p q r = rw (p, q, r)

rule_runs-iff_Runs :
    (w : Weekday) (ctx : DayContext) (d : Date) (rule : ScheduleRule)
    → (rule_runs w ctx d rule ≡ true) ↔ Runs w ctx d rule
unfolding rule_runs
rule_runs-iff_Runs w ctx d rule = (to, from)
  where
    parts :
        rule_runs w ctx d rule ≡ true
        → (on_weekday w rule.weekdays ≡ true)
          × (scope_applies rule.scope ctx ≡ true)
          × (in_season rule d ≡ true)
    parts h =
        and-true (on_weekday w rule.weekdays) (scope_applies rule.scope ctx) (in_season rule d) h

    to : rule_runs w ctx d rule ≡ true → Runs w ctx d rule
    to h =
        let (a, b, c) = parts h in
        record {
          on_day = (on_weekday-iff_In w rule.weekdays).0 a;
          scoped = (InScope-iff ctx rule.scope).0 b;
          seasoned = (InSeason-iff d rule).0 c;
        }

    from : Runs w ctx d rule → rule_runs w ctx d rule ≡ true
    from r =
        true-and ((on_weekday-iff_In w rule.weekdays).1 r.on_day)
          ((InScope-iff ctx rule.scope).1 r.scoped) ((InSeason-iff d rule).1 r.seasoned)

-- The sessions that a timetable offers on a date.
abbrev pub Offers : Weekday → DayContext → Date → List ScheduleRule → ResolvedSession → Type 0
Offers w ctx d rules s =
    (rule : ScheduleRule) × In rule rules × Runs w ctx d rule × (s ≡ session_of rule)

sessions_for_weekday-Offers :
    (rules : List ScheduleRule) (w : Weekday) (ctx : DayContext) (d : Date) (s : ResolvedSession)
    → In s (sessions_for_weekday rules w ctx d) ↔ Offers w ctx d rules s
unfolding sessions_for_weekday
sessions_for_weekday-Offers rules w ctx d s = (to, from)
  where
    to :
        In s (sort starts_before (map session_of (keep (rule_runs w ctx d) rules)))
        → Offers w ctx d rules s
    to m =
        let (rule, kept, e) =
          In-map session_of s (keep (rule_runs w ctx d) rules)
            (In-sort starts_before s (map session_of (keep (rule_runs w ctx d) rules)) m) in
        let (listed, runs) = In-keep (rule_runs w ctx d) rule rules kept in
        (rule, listed, (rule_runs-iff_Runs w ctx d rule).0 runs, e)

    from :
        Offers w ctx d rules s
        → In s (sort starts_before (map session_of (keep (rule_runs w ctx d) rules)))
    from (rule, listed, runs, e) = rw e (
        In-sort_of starts_before (session_of rule) _ (
          In-map_of session_of rule (keep (rule_runs w ctx d) rules) (
            In-keep_of (rule_runs w ctx d) rule rules listed
              ((rule_runs-iff_Runs w ctx d rule).1 runs))))

sessions_for_weekday-Ascending :
    (rules : List ScheduleRule) (w : Weekday) (ctx : DayContext) (d : Date)
    → Ascending starts_before (sessions_for_weekday rules w ctx d)
unfolding sessions_for_weekday
sessions_for_weekday-Ascending rules w ctx d =
    sort-Ascending starts_before (λ a b h. ground arith) (λ a b c h k. ground arith)
      (map session_of (keep (rule_runs w ctx d) rules))

-- The weekday whose timetable a date follows: Sunday's on a public holiday of a facility with that
-- policy, else the date's own.
abbrev pub effective_weekday : Option HolidayPolicy → DayContext → Date → Weekday
effective_weekday (some sunday_schedule) ctx d =
    if ctx.is_public_holiday then sunday else weekday_on d
effective_weekday _ ctx d = weekday_on d

weekly_day-open :
    (rules : List ScheduleRule) (w : Weekday) (ctx : DayContext) (d : Date) (u v : Bool)
    (sessions : List ResolvedSession)
    → weekly_day rules w ctx d u ≡ open_day sessions v
    → (sessions ≡ sessions_for_weekday rules w ctx d) × (v ≡ u) × (nonempty sessions ≡ true)
unfolding weekly_day empty_day
weekly_day-open rules w ctx d u v sessions h = ground arith

module _ (casefold : String → String) (rules : List ScheduleRule) (ctx : DayContext) (d : Date)
    (sessions : List ResolvedSession) (v : Bool) where
  abbrev OpensAs : Option HolidayPolicy → Type 0
  OpensAs p =
      (sessions ≡ sessions_for_weekday rules (effective_weekday p ctx d) ctx d)
      × (v ≡ (ctx.is_public_holiday && is_none p))
      × (nonempty sessions ≡ true)

  recurring_day-open :
      (p : Option HolidayPolicy)
      → recurring_day casefold p rules ctx d ≡ open_day sessions v
      → OpensAs p
  unfolding recurring_day holiday_day
  recurring_day-open p h = elim (Bool-cases ctx.is_public_holiday) [
    | inl e ↦ on_holiday p e (simp e at h)
    | inr e ↦
        on_weekday p e (weekly_day-open rules (weekday_on d) ctx d false v sessions (simp e at h))
  ]
    where
      on_holiday :
          (p : Option HolidayPolicy)
          → ctx.is_public_holiday ≡ true
          → holiday_day casefold p rules ctx d ≡ open_day sessions v
          → OpensAs p
      on_holiday none e h =
          ground (arith, weekly_day-open rules (weekday_on d) ctx d true v sessions h)
      on_holiday (some HolidayPolicy.normal) e h =
          ground (arith, weekly_day-open rules (weekday_on d) ctx d false v sessions h)
      on_holiday (some sunday_schedule) e h =
          ground (arith, weekly_day-open rules sunday ctx d false v sessions h)
      on_holiday (some HolidayPolicy.closed) e h = absurd (cc)

      on_weekday :
          (p : Option HolidayPolicy)
          → ctx.is_public_holiday ≡ false
          → (sessions ≡ sessions_for_weekday rules (weekday_on d) ctx d)
            × (v ≡ false)
            × (nonempty sessions ≡ true)
          → OpensAs p
      on_weekday none e h = ground arith
      on_weekday (some HolidayPolicy.normal) e h = ground arith
      on_weekday (some sunday_schedule) e h = ground arith
      on_weekday (some HolidayPolicy.closed) e h = ground arith

season_gate-open :
    (s : Option OperatingSeason) (rules : List ScheduleRule) (d : Date) (rest : DaySchedule)
    (sessions : List ResolvedSession) (v : Bool)
    → season_gate s rules d rest ≡ open_day sessions v
    → rest ≡ open_day sessions v
unfolding season_gate
season_gate-open none rules d rest sessions v h = h
season_gate-open (some season) rules d rest sessions v h = ground arith

-- A day that is open by its recurring rules (no exception for it) has at least one session, exactly
-- the sessions of the rules that run on the effective weekday in the day's school and season
-- context, in ascending order of their starts; and it is flagged as unverified exactly on a public
-- holiday for which the facility states no policy.
pub resolve_hours-sessions :
    (casefold : String → String) (facility : Facility) (rules : List ScheduleRule)
    (exceptions : List ScheduleException) (d : Date) (calendar : ZurichCalendar)
    (sessions : List ResolvedSession) (unverified : Bool)
    → NoException exceptions d
    → resolve_hours casefold facility rules exceptions d calendar ≡ open_day sessions unverified
    → let ctx = context calendar d in
      let policy = facility.public_holiday_policy in
      (nonempty sessions ≡ true)
      × ((s : ResolvedSession)
          → In s sessions ↔ Offers (effective_weekday policy ctx d) ctx d rules s)
      × Ascending starts_before sessions
      × (unverified ≡ (ctx.is_public_holiday && is_none policy))
resolve_hours-sessions casefold facility rules exceptions d calendar sessions u plain h =
    let (same, flag, some_session) =
      recurring_day-open casefold rules (context calendar d) d sessions u
        facility.public_holiday_policy
        (season_gate-open facility.operating_season rules d _ sessions u (
          sym (resolve_hours-quiet casefold facility rules exceptions d calendar quiet plain)
          ∙ h)) in
    let w = effective_weekday facility.public_holiday_policy (context calendar d) d in
    (
      some_session,
      λ s. rw same (sessions_for_weekday-Offers rules w (context calendar d) d s),
      rw same (sessions_for_weekday-Ascending rules w (context calendar d) d),
      flag,
    )
  where
    quiet : NoClosure facility d
    quiet = open_day-NoClosure casefold facility rules exceptions d calendar sessions u h
