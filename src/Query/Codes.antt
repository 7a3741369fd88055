-- ===== src/Query/Codes.antt =====
-- The statuses that the loop of `find_swim_options` (src/swimzh/domain/query.py) makes say that a
-- facility is closed or open without a timetable.
use swimming_in_zurich.Base.{
  Bool, true, false, any, Option, none, some, List, [], ◌∷◌, ◌++◌, ◌≡◌, refl, sym, subst, ◌⊎◌, inl,
  inr, In, In-append, Bool-cases,
}
use swimming_in_zurich.Dates.{Date}
use swimming_in_zurich.Closure.{ClosureCode, StrParams}
use swimming_in_zurich.Calendar.{ZurichCalendar}
use swimming_in_zurich.Errors.{Float}
use swimming_in_zurich.Schedule.{DaySchedule, open_day, open_unscheduled_day, closed_day}
use swimming_in_zurich.Models.{Facility, OperatingSeason}
use swimming_in_zurich.Catalog.{has_rules}
use swimming_in_zurich.Resolver.{resolve_hours}
use swimming_in_zurich.Query.Types.{Platform, FacilityStatus, closed_reason, open_unscheduled}
use swimming_in_zurich.Query.Statuses.{
  seasonal_status, one, seasonal_for, seasonal_status_for, distance_to, distance_raises,
}
use swimming_in_zurich.Query.Answer.{after_visit-inversion}
use swimming_in_zurich.Query.Visit.{
  Request, Visit, Found, visit_basins, start_visit, is_beyond, closing, record_visit, add_visit,
  visit_facility, visit_facilities,
}

abbrev pub FromLoop : FacilityStatus → Type 0
FromLoop s = (s.code ≡ closed_reason) ⊎ (s.code ≡ open_unscheduled)

abbrev pub AllFromLoop : List FacilityStatus → Type 0
AllFromLoop statuses = (s : FacilityStatus) → In s statuses → FromLoop s

-- Of the value, if there is one.
abbrev Whenever : {A : Type 0} → (A → Type 0) → Option A → Type 0
Whenever P none = Unit
Whenever P (some a) = P a

singleton : (s : FacilityStatus) → FromLoop s → AllFromLoop (s ∷ [])
singleton s h x (inl same) = subst FromLoop (sym same) h
singleton s h x (inr e) = absurd e

seasonal_status-FromLoop :
    (facility : Facility) (season : OperatingSeason) (schedule : DaySchedule)
    (distance : Option Float)
    → Whenever AllFromLoop (one (seasonal_status facility season schedule distance))
unfolding seasonal_status
seasonal_status-FromLoop facility season (open_day s u) distance = tt
seasonal_status-FromLoop facility season (open_unscheduled_day w) distance = singleton _ (inr refl)
seasonal_status-FromLoop facility season (closed_day c p) distance = singleton _ (inl refl)

seasonal_for-FromLoop :
    (w : Platform) (facility : Facility) (day : Date) (calendar : ZurichCalendar)
    (distance : Option Float) (o : Option OperatingSeason)
    → Whenever AllFromLoop (seasonal_for w facility day calendar distance o)
unfolding seasonal_for
seasonal_for-FromLoop w facility day calendar distance none = λ s m. absurd m
seasonal_for-FromLoop w facility day calendar distance (some season) =
    elim (Bool-cases (any has_rules facility.basins)) [
      | inl t ↦ rw t (λ s m. absurd m)
      | inr t ↦ rw t (
          seasonal_status-FromLoop facility season
            (resolve_hours w.casefold facility [] [] day calendar) distance)
    ]

closing-FromLoop :
    (r : Request) (facility : Facility) (produced : Bool) (o : Option (ClosureCode × StrParams))
    → AllFromLoop (closing r facility produced o)
closing-FromLoop r facility false (some (code, params)) = singleton _ (inl refl)
closing-FromLoop r facility false none = λ s m. absurd m
closing-FromLoop r facility true o = λ s m. absurd m

record_visit-FromLoop :
    (r : Request) (facility : Facility) (v : Visit) (seasonal : List FacilityStatus) (found : Found)
    → AllFromLoop found.statuses
    → AllFromLoop seasonal
    → AllFromLoop (record_visit r facility v seasonal found).statuses
record_visit-FromLoop r facility v seasonal found old new s m =
    let last = closing r facility v.produced v.closed in
    elim (In-append s (found.statuses ++ seasonal) last m) [
      | inl a ↦ elim (In-append s found.statuses seasonal a) [ inl b ↦ old s b | inr c ↦ new s c ]
      | inr d ↦ closing-FromLoop r facility v.produced v.closed s d
    ]

abbrev Good : Option Found → Type 0
Good o = Whenever (λ (f : Found). AllFromLoop f.statuses) o

add_visit-FromLoop :
    (r : Request) (facility : Facility) (v : Visit) (o : Option (List FacilityStatus))
    (found : Found)
    → AllFromLoop found.statuses
    → Whenever AllFromLoop o
    → Good (add_visit r facility v o found)
add_visit-FromLoop r facility v none found old new = tt
add_visit-FromLoop r facility v (some seasonal) found old new =
    record_visit-FromLoop r facility v seasonal found old new

visit_facility-FromLoop :
    (r : Request) (facility : Facility) (found : Found)
    → AllFromLoop found.statuses
    → Good (visit_facility r facility found)
unfolding visit_facility seasonal_status_for
visit_facility-FromLoop r facility found old =
    elim (Bool-cases (distance_raises r.platform r.query facility.geo)) [
      | inl t ↦ rw t tt
      | inr t ↦ elim (Bool-cases (is_beyond r facility)) [
        | inl b ↦ rw (t, b) old
        | inr b ↦
            rw (t, b)
              (add_visit-FromLoop r facility (visit_basins r facility facility.basins start_visit) _
                found old
                (seasonal_for-FromLoop r.platform facility r.day r.calendar
                  (distance_to r.platform r.query facility.geo) facility.operating_season))
      ]
    ]

pub visit_facilities-FromLoop :
    (r : Request) (fs : List Facility) (found end : Found)
    → visit_facilities r fs found ≡ some end
    → AllFromLoop found.statuses
    → AllFromLoop end.statuses
unfolding visit_facilities
visit_facilities-FromLoop r [] found end h old =
    subst (λ (x : Found). AllFromLoop x.statuses) same old
  where
    same : found ≡ end
    same = cc
visit_facilities-FromLoop r (f ∷ fs) found end h old =
    let (next, e, k) =
      after_visit-inversion (visit_facility r f found) (visit_facilities r fs) end h in
    visit_facilities-FromLoop r fs next end k (subst Good e (visit_facility-FromLoop r f found old))
