-- ===== src/Query/Totality.antt =====
-- `find_swim_options` (src/swimzh/domain/query.py) returns: no exception of its own leaves it.
use swimming_in_zurich.Base.{
  Bool, false, not, ◌&&◌, Option, none, some, List, [], ◌∷◌, ◌≡◌, ◌≢◌, refl, String, inl, inr,
  arith, any, Bool-cases, ℕ, All, ◌⊎◌,
}
use swimming_in_zurich.Dates.{Date}
use swimming_in_zurich.Calendar.{ZurichCalendar, context}
use swimming_in_zurich.Errors.{Float}
use swimming_in_zurich.Schedule.{
  ResolvedSession, DaySchedule, open_day, open_unscheduled_day, closed_day,
}
use swimming_in_zurich.Models.{GeoPoint, Facility, OperatingSeason}
use swimming_in_zurich.Catalog.{
  RosterEntry, ScheduleFreshness, scraped, awaiting_scrape, no_source, has_rules,
}
use swimming_in_zurich.Resolver.{resolve_hours, season_gate, recurring_day}
use swimming_in_zurich.Query.Types.{
  Platform, SwimQuery, FacilityStatus, StatusCode, QueryResult, OccupancyProvider,
}
use swimming_in_zurich.Query.Statuses.{
  seasonal_status, seasonal_for, seasonal_status_for, schedule_less_statuses, freshness_status,
  is_scraped, has_schedule, distance_to, distance_raises, roster_status,
}
use swimming_in_zurich.Query.Visit.{
  Request, Found, visit_basins, start_visit, is_beyond, visit_facility, visit_facilities,
  record_visit,
}
use swimming_in_zurich.Query.Search.{
  run_query, request_of, find_swim_options, nothing_found, result_of,
}

-- A facility-level resolution inside an operating season yields no sessions.
seasonal_gate-unopen :
    (season : OperatingSeason) (d : Date) (rest : DaySchedule) (s : List ResolvedSession) (u : Bool)
    → season_gate (some season) [] d rest ≢ open_day s u
unfolding season_gate
seasonal_gate-unopen season d rest s u h = ground arith

seasonal-unopen :
    (casefold : String → String) (facility : Facility) (season : OperatingSeason) (d : Date)
    (calendar : ZurichCalendar) (s : List ResolvedSession) (u : Bool)
    → facility.operating_season ≡ some season
    → resolve_hours casefold facility [] [] d calendar ≢ open_day s u
unfolding resolve_hours
seasonal-unopen casefold facility season d calendar s u e h =
    seasonal_gate-unopen season d
      (recurring_day casefold facility.public_holiday_policy [] (context calendar d) d) s u
      (ground arith)

seasonal_status-total :
    (facility : Facility) (season : OperatingSeason) (schedule : DaySchedule)
    (distance : Option Float)
    → ((s : List ResolvedSession) (u : Bool) → schedule ≢ open_day s u)
    → (st : FacilityStatus) × (seasonal_status facility season schedule distance ≡ some st)
unfolding seasonal_status
seasonal_status-total facility season (open_day s u) distance h = absurd (h s u refl)
seasonal_status-total facility season (open_unscheduled_day w) distance h = (_, refl)
seasonal_status-total facility season (closed_day c p) distance h = (_, refl)

seasonal_for-total :
    (w : Platform) (facility : Facility) (day : Date) (calendar : ZurichCalendar)
    (distance : Option Float) (o : Option OperatingSeason)
    → facility.operating_season ≡ o
    → (s : List FacilityStatus) × (seasonal_for w facility day calendar distance o ≡ some s)
unfolding seasonal_for
seasonal_for-total w facility day calendar distance none e = ([], refl)
seasonal_for-total w facility day calendar distance (some season) e =
    elim (Bool-cases (any has_rules facility.basins)) [
      | inl t ↦ ([], rw t)
      | inr t ↦
          let (st, k) =
            seasonal_status-total facility season _ distance
              (λ s u. seasonal-unopen w.casefold facility season day calendar s u e) in
          (st ∷ [], rw (t, k))
    ]

visit_facility-total :
    (r : Request) (facility : Facility) (found : Found)
    → distance_raises r.platform r.query facility.geo ≡ false
    → (next : Found) × (visit_facility r facility found ≡ some next)
unfolding visit_facility seasonal_status_for
visit_facility-total r facility found calm = elim (Bool-cases (is_beyond r facility)) [
  | inl t ↦ (found, rw (calm, t))
  | inr t ↦
      let (s, e) =
        seasonal_for-total r.platform facility r.day r.calendar
          (distance_to r.platform r.query facility.geo) facility.operating_season refl in
      (
        record_visit r facility (visit_basins r facility facility.basins start_visit) s found,
        rw (calm, t, e),
      )
]

visit_facilities-total :
    (r : Request) (fs : List Facility) (found : Found)
    → All (λ (f : Facility). distance_raises r.platform r.query f.geo ≡ false) fs
    → (end : Found) × (visit_facilities r fs found ≡ some end)
unfolding visit_facilities
visit_facilities-total r [] found calm = (found, refl)
visit_facilities-total r (f ∷ fs) found calm =
    let (next, e) = visit_facility-total r f found calm.0 in
    let (end, k) = visit_facilities-total r fs next calm.1 in (end, rw e k)

freshness_status-total :
    (x : ScheduleFreshness)
    → is_scraped x ≡ false
    → (c : String × StatusCode) × (freshness_status x ≡ some c)
freshness_status-total scraped h = absurd (cc)
freshness_status-total awaiting_scrape h = (_, refl)
freshness_status-total no_source h = (_, refl)

schedule_less_statuses-total :
    (w : Platform) (query : SwimQuery) (fs : List Facility) (rows : List RosterEntry)
    → All (λ (row : RosterEntry). distance_raises w query row.entry.geo ≡ false) rows
    → (s : List FacilityStatus) × (schedule_less_statuses w query fs rows ≡ some s)
unfolding schedule_less_statuses
schedule_less_statuses-total w query fs [] calm = ([], refl)
schedule_less_statuses-total w query fs (row ∷ rows) calm =
    let (rest, e) = schedule_less_statuses-total w query fs rows calm.1 in
    elim (Bool-cases (not (has_schedule fs row.entry.pool_id) && not (is_scraped row.freshness))) [
      | inl t ↦
          let (c, k) = freshness_status-total row.freshness (ground arith) in
          (roster_status row (distance_to w query row.entry.geo) c ∷ rest, rw (t, calm.0, e, k))
      | inr t ↦ (rest, rw (t, e))
    ]

nowhere :
    {A : Type 0} (w : Platform) (query : SwimQuery) (place : A → Option GeoPoint) (xs : List A)
    → query.near ≡ none
    → All (λ (x : A). distance_raises w query (place x) ≡ false) xs
unfolding distance_raises
nowhere w query place [] e = tt
nowhere w query place (x ∷ xs) e = (rw e refl, nowhere w query place xs e)

none_raises :
    (w : Platform) (query : SwimQuery) (facilities : List Facility) (roster : List RosterEntry)
    → ((query.near ≡ none)
        ⊎ (All (λ (f : Facility). distance_raises w query f.geo ≡ false) facilities
            × All (λ (row : RosterEntry). distance_raises w query row.entry.geo ≡ false) roster))
    → All (λ (f : Facility). distance_raises w query f.geo ≡ false) facilities
      × All (λ (row : RosterEntry). distance_raises w query row.entry.geo ≡ false) roster
none_raises w query facilities roster (inl e) = (
  nowhere w query (λ (f : Facility). f.geo) facilities e,
  nowhere w query (λ (row : RosterEntry). row.entry.geo) roster e,
)
none_raises w query facilities roster (inr h) = h

pub find_swim_options-total :
    (w : Platform) (query : SwimQuery) (facilities : List Facility) (calendar : ZurichCalendar)
    (roster : List RosterEntry) (occupancy : Option OccupancyProvider) (now : ℕ)
    → ((query.near ≡ none)
        ⊎ (All (λ (f : Facility). distance_raises w query f.geo ≡ false) facilities
            × All (λ (row : RosterEntry). distance_raises w query row.entry.geo ≡ false) roster))
    → (res : QueryResult) × (find_swim_options w query facilities calendar roster occupancy now
        ≡ some res)
unfolding find_swim_options run_query request_of
find_swim_options-total w query facilities calendar roster occupancy now reach =
    let calm = none_raises w query facilities roster reach in
    let r = request_of w query calendar now occupancy in
    let (found, e) = visit_facilities-total r facilities nothing_found calm.0 in
    let (rows, k) = schedule_less_statuses-total r.platform r.query facilities roster calm.1 in
    (result_of r found rows, rw (e, k))
