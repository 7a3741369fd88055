-- ===== src/Tests/Days.antt =====
-- The theorems of Resolver at concrete days.
use swimming_in_zurich.Base.{
  true, false, ◌&&◌, if◌then◌else◌, none, List, [], ◌∷◌, ◌≡◌, refl, ◌↔◌, inl, inr, arith, In,
  nonempty, is_none, map, sym, ap, ◌∙◌,
}
use swimming_in_zurich.Base.Sort.{Ascending}
use swimming_in_zurich.Dates.{Date, date}
use swimming_in_zurich.Calendar.{context}
use swimming_in_zurich.Schedule.{
  fair_only, weekday_on, ScheduleException, ClosureRange, closure_contains, ResolvedSession,
  open_day, open_unscheduled_day, closed_day,
}
use swimming_in_zurich.Resolver.{
  resolve_hours, recurring_day, holiday_day, weekly_day, starts_before, session_of,
}
use swimming_in_zurich.Resolver.Priority.{
  NoClosure, NoException, answer, resolve_hours-closure, resolve_hours-exception, Unscheduled,
  resolve_hours-Unscheduled,
}
use swimming_in_zurich.Resolver.Sessions.{Offers, effective_weekday, resolve_hours-sessions}
use swimming_in_zurich.Tests.Data.{
  calendar, city, city_rules, gala, revision, paddling, same_case, tuesday_in_term, club_hours,
  public_hours,
}

program : Unit {0}
unfolding resolve_hours recurring_day holiday_day weekly_day weekday_on
program = tt

-- The club's hours stand second on the page and first in the day.
abbrev sessions : List ResolvedSession
sessions = map session_of (club_hours ∷ public_hours ∷ [])

resolve_hours-sessions_run :
    resolve_hours same_case city city_rules (gala ∷ []) tuesday_in_term calendar
    ≡ open_day sessions false
unfolding program
resolve_hours-sessions_run = refl

in_revision : closure_contains revision (date 2026 8 10) ≡ true
unfolding closure_contains
in_revision = refl

resolve_hours-closure_example :
    (first : ClosureRange) × In first city.closures
    × (closure_contains first (date 2026 8 10) ≡ true)
    × (answer same_case city city_rules (gala ∷ []) (date 2026 8 10) calendar
        ≡ closed_day first.code first.params)
resolve_hours-closure_example =
    resolve_hours-closure same_case city city_rules (gala ∷ []) (date 2026 8 10) calendar revision
      (inl refl) in_revision

no_revision : (d : Date) → closure_contains revision d ≡ false → NoClosure city d
no_revision d h c (inl e) = rw e h
no_revision d h c (inr m) = absurd m

march_open : closure_contains revision (date 2026 3 3) ≡ false
unfolding closure_contains
march_open = refl

term_open : closure_contains revision tuesday_in_term ≡ false
unfolding closure_contains
term_open = refl

resolve_hours-exception_example :
    (first : ScheduleException) × In first (gala ∷ [])
    × (first.date ≡ date 2026 3 3)
    × (answer same_case city city_rules (gala ∷ []) (date 2026 3 3) calendar ≡ (
        if first.closed then closed_day first.code first.params else open_day first.sessions false))
resolve_hours-exception_example =
    resolve_hours-exception same_case city city_rules (gala ∷ []) (date 2026 3 3) calendar gala
      (no_revision (date 2026 3 3) march_open) (inl refl) refl

resolve_hours-Unscheduled_example :
    (resolve_hours same_case paddling [] [] (date 2026 7 1) calendar
      ≡ open_unscheduled_day fair_only)
    ↔ Unscheduled paddling [] [] (date 2026 7 1) fair_only
resolve_hours-Unscheduled_example =
    resolve_hours-Unscheduled same_case paddling [] [] (date 2026 7 1) calendar fair_only

no_gala : NoException (gala ∷ []) tuesday_in_term
no_gala e (inl i) h = other (sym (ap (λ (x : ScheduleException). x.date) i) ∙ h)
  where
    other : gala.date ≡ tuesday_in_term → ⊥
    other k = omega (arith, ap (λ (d : Date). d.day) k)
no_gala e (inr m) h = absurd m

resolve_hours-sessions_example :
    (nonempty sessions ≡ true)
    × ((s : ResolvedSession)
        → In s sessions
          ↔ Offers
              (effective_weekday none (context calendar tuesday_in_term) tuesday_in_term)
              (context calendar tuesday_in_term)
              tuesday_in_term
              city_rules
              s)
    × Ascending starts_before sessions
    × (false ≡ (
        (context calendar tuesday_in_term).is_public_holiday && is_none city.public_holiday_policy))
resolve_hours-sessions_example =
    resolve_hours-sessions same_case city city_rules (gala ∷ []) tuesday_in_term calendar sessions
      false no_gala resolve_hours-sessions_run
