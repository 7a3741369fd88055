-- ===== src/Query/Options.antt =====
-- Which options `find_swim_options` (src/swimzh/domain/query.py) returns.
use swimming_in_zurich.Base.{
  Bool, true, false, some, List, [], ◌∷◌, ◌++◌, ◌≡◌, refl, subst, ◌⊎◌, inl, inr, arith, map,
  nonempty, Bool-cases, In, In-map, In-map_of, In-append, In-append_left, In-append_right,
}
use swimming_in_zurich.Schedule.{
  ResolvedSession, DaySchedule, open_day, open_unscheduled_day, closed_day,
}
use swimming_in_zurich.Models.{Facility, Basin}
use swimming_in_zurich.Resolver.{resolve_basin}
use swimming_in_zurich.Query.Types.{SwimOption}
use swimming_in_zurich.Query.Visit.{
  Request, Visit, Found, take_schedule, option_of, visit_basin, visit_basins, start_visit,
  is_beyond, visit_facility,
}

-- The options that a basin with rules contributes: one for each session of its open day.
abbrev pub FromBasin : Request → Facility → Basin → SwimOption → Type 0
FromBasin r facility basin o =
    (nonempty basin.rules ≡ true)
    × ((sessions : List ResolvedSession) × ((unverified : Bool) × ((session : ResolvedSession)
            × (resolve_basin r.platform.casefold facility basin r.day r.calendar
                ≡ open_day sessions unverified)
            × In session sessions
            × (o ≡ option_of r facility basin session))))

-- The options that a facility within the radius contributes.
abbrev pub FromFacility : Request → Facility → SwimOption → Type 0
FromFacility r facility o =
    (is_beyond r facility ≡ false)
    × ((basin : Basin) × In basin facility.basins × FromBasin r facility basin o)

module _ (r : Request) (facility : Facility) (o : SwimOption) where
  abbrev FromSchedule : Basin → DaySchedule → Type 0
  FromSchedule basin schedule =
      (sessions : List ResolvedSession) × ((unverified : Bool) × ((session : ResolvedSession)
          × (schedule ≡ open_day sessions unverified)
          × In session sessions
          × (o ≡ option_of r facility basin session)))

  take_schedule-In :
      (basin : Basin) (s : DaySchedule) (v : Visit)
      → In o (take_schedule r facility basin s v).options
      → In o v.options ⊎ FromSchedule basin s
  unfolding take_schedule
  take_schedule-In basin (open_day sessions u) v m =
      elim (In-append o v.options (map (option_of r facility basin) sessions) m) [
        | inl old ↦ inl old
        | inr new ↦
            let (session, listed, e) = In-map (option_of r facility basin) o sessions new in
            inr (sessions, (u, (session, refl, listed, e)))
      ]
  take_schedule-In basin (open_unscheduled_day _) v m = inl m
  take_schedule-In basin (closed_day _ _) v m = inl m

  take_schedule-keeps :
      (basin : Basin) (s : DaySchedule) (v : Visit)
      → In o v.options
      → In o (take_schedule r facility basin s v).options
  unfolding take_schedule
  take_schedule-keeps basin (open_day sessions u) v m = In-append_left o v.options _ m
  take_schedule-keeps basin (open_unscheduled_day _) v m = m
  take_schedule-keeps basin (closed_day _ _) v m = m

  take_schedule-adds :
      (basin : Basin) (s : DaySchedule) (v : Visit)
      → FromSchedule basin s
      → In o (take_schedule r facility basin s v).options
  unfolding take_schedule
  take_schedule-adds basin s v (sessions, (u, (session, e, m, k))) =
      rw (e, k)
        (In-append_right (option_of r facility basin session) v.options _
          (In-map_of (option_of r facility basin) session sessions m))

  visit_basin_ruled :
      (b : Basin) (v : Visit)
      → nonempty b.rules ≡ true
      → visit_basin r facility b v
        ≡ take_schedule r facility b
            (resolve_basin r.platform.casefold facility b r.day r.calendar)
            v
  unfolding visit_basin
  visit_basin_ruled b v t = rw t

  visit_basin_bare :
      (b : Basin) (v : Visit) → nonempty b.rules ≡ false → visit_basin r facility b v ≡ v
  unfolding visit_basin
  visit_basin_bare b v t = rw t

  visit_basin-keeps :
      (b : Basin) (v : Visit) → In o v.options → In o (visit_basin r facility b v).options
  visit_basin-keeps b v m = elim (Bool-cases (nonempty b.rules)) [
    | inl t ↦ rw (visit_basin_ruled b v t) (take_schedule-keeps b _ v m)
    | inr t ↦ rw (visit_basin_bare b v t) m
  ]

  visit_basin-In :
      (b : Basin) (v : Visit)
      → In o (visit_basin r facility b v).options
      → In o v.options ⊎ FromBasin r facility b o
  visit_basin-In b v m = elim (Bool-cases (nonempty b.rules)) [
    | inl t ↦ elim (take_schedule-In b _ v (rw (visit_basin_ruled b v t) at m)) [
      | inl old ↦ inl old
      | inr from ↦ inr (t, from)
    ]
    | inr t ↦ inl (rw (visit_basin_bare b v t) at m)
  ]

  visit_basins-keeps :
      (bs : List Basin) (v : Visit) → In o v.options → In o (visit_basins r facility bs v).options
  unfolding visit_basins
  visit_basins-keeps [] v m = m
  visit_basins-keeps (b ∷ bs) v m = visit_basins-keeps bs _ (visit_basin-keeps b v m)

  pub visit_basins-adds :
      (bs : List Basin) (v : Visit) (basin : Basin)
      → In basin bs
      → FromBasin r facility basin o
      → In o (visit_basins r facility bs v).options
  unfolding visit_basins
  visit_basins-adds [] v basin m h = absurd m
  visit_basins-adds (b ∷ bs) v basin (inl e) h = visit_basins-keeps bs _ (
      subst (λ (x : Basin). In o (visit_basin r facility x v).options) e
        (rw (visit_basin_ruled basin v h.0) (take_schedule-adds basin _ v h.1)))
  visit_basins-adds (b ∷ bs) v basin (inr m) h = visit_basins-adds bs _ basin m h

  pub visit_basins-In :
      (bs : List Basin) (v : Visit)
      → In o (visit_basins r facility bs v).options
      → In o v.options ⊎ ((basin : Basin) × In basin bs × FromBasin r facility basin o)
  unfolding visit_basins
  visit_basins-In [] v m = inl m
  visit_basins-In (b ∷ bs) v m = elim (visit_basins-In bs (visit_basin r facility b v) m) [
    | inl old ↦ elim (visit_basin-In b v old) [
      | inl older ↦ inl older
      | inr from ↦ inr (b, inl refl, from)
    ]
    | inr (basin, k, from) ↦ inr (basin, inr k, from)
  ]

  pub visit_facility-beyond :
      (found next : Found)
      → is_beyond r facility ≡ true
      → visit_facility r facility found ≡ some next
      → next.options ≡ found.options
  unfolding visit_facility
  visit_facility-beyond found next t h = ground arith

  pub visit_facility-within :
      (found next : Found)
      → is_beyond r facility ≡ false
      → visit_facility r facility found ≡ some next
      → next.options
        ≡ found.options ++ (visit_basins r facility facility.basins start_visit).options
  unfolding visit_facility
  visit_facility-within found next t h = ground arith
