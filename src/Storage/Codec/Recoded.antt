-- ===== src/Storage/Codec/Recoded.antt =====
-- What src/swimzh/storage/codec.py makes of a facility with closures and exceptions whose codes are not
-- those of their reasons.
use swimming_in_zurich.Base.{some, List, [], ◌∷◌, String, ◌≡◌, refl, ap, sym, ◌∙◌, All, map}
use swimming_in_zurich.Base.Maybe.{Given}
use swimming_in_zurich.Base.Count.{cons_cong}
use swimming_in_zurich.Closure.{special}
use swimming_in_zurich.Schedule.{ScheduleException, schedule_exception, ClosureRange, closure_range}
use swimming_in_zurich.Models.{Basin, Facility}
use swimming_in_zurich.Boundary.Schedules.{exception_to_dto, closure_to_dto}
use swimming_in_zurich.Boundary.Schedules.RoundTrip.{
  IsSession, IsRule, IsException, IsClosure, IsSeason,
}
use swimming_in_zurich.Boundary.Plans.RoundTrip.{IsOutcome}
use swimming_in_zurich.Boundary.Facilities.{basin_to_dto}
use swimming_in_zurich.Boundary.Facilities.RoundTrip.{IsBasin, IsFeature}
use swimming_in_zurich.Storage.Codec.{to_stored, from_stored}
use swimming_in_zurich.Storage.Codec.RoundTrip.{from_stored-to_stored}

module _ (casefold : String → String) where
  -- Constructed again with no code stated.
  abbrev pub recoded_exception : ScheduleException → ScheduleException
  recoded_exception e = schedule_exception casefold e.date e.closed e.reason special [] e.sessions

  abbrev pub recoded_closure : ClosureRange → ClosureRange
  recoded_closure c = closure_range casefold c.start c.end c.reason special []

  abbrev pub recoded_basin : Basin → Basin
  recoded_basin b = record b { exceptions = map recoded_exception b.exceptions }

  abbrev pub recoded : Facility → Facility
  recoded f = record f {
    basins = map recoded_basin f.basins;
    closures = map recoded_closure f.closures;
  }

  -- The ranges, windows and sets are valid; a code may be any.
  abbrev pub IsValidBasin : Basin → Type 0
  IsValidBasin b =
      All IsRule b.rules
      × All (λ (e : ScheduleException). All IsSession e.sessions) b.exceptions
      × IsOutcome b.lane_plan

  abbrev pub IsValid : Facility → Type 0
  IsValid f =
      All IsValidBasin f.basins × Given IsSeason f.operating_season × All IsFeature f.features

  recoded_exceptions-IsException :
      (es : List ScheduleException)
      → All (λ (e : ScheduleException). All IsSession e.sessions) es
      → All (IsException casefold) (map recoded_exception es)
  unfolding schedule_exception
  recoded_exceptions-IsException [] h = tt
  recoded_exceptions-IsException (e ∷ es) h = ((h.0, refl), recoded_exceptions-IsException es h.1)

  recoded_closures-IsClosure :
      (cs : List ClosureRange) → All (IsClosure casefold) (map recoded_closure cs)
  unfolding closure_range
  recoded_closures-IsClosure [] = tt
  recoded_closures-IsClosure (c ∷ cs) = (refl, recoded_closures-IsClosure cs)

  recoded_basins-IsBasin :
      (bs : List Basin) → All IsValidBasin bs → All (IsBasin casefold) (map recoded_basin bs)
  recoded_basins-IsBasin [] h = tt
  recoded_basins-IsBasin (b ∷ bs) ((rules, exceptions, plan), h) = (
    (rules, recoded_exceptions-IsException b.exceptions exceptions, plan),
    recoded_basins-IsBasin bs h,
  )

  exceptions_to-recoded :
      (es : List ScheduleException)
      → map exception_to_dto (map recoded_exception es) ≡ map exception_to_dto es
  unfolding exception_to_dto schedule_exception
  exceptions_to-recoded [] = refl
  exceptions_to-recoded (e ∷ es) = cons_cong refl (exceptions_to-recoded es)

  closures_to-recoded :
      (cs : List ClosureRange) → map closure_to_dto (map recoded_closure cs) ≡ map closure_to_dto cs
  unfolding closure_to_dto closure_range
  closures_to-recoded [] = refl
  closures_to-recoded (c ∷ cs) = cons_cong refl (closures_to-recoded cs)

  basins_to-recoded :
      (bs : List Basin) → map basin_to_dto (map recoded_basin bs) ≡ map basin_to_dto bs
  unfolding basin_to_dto
  basins_to-recoded [] = refl
  basins_to-recoded (b ∷ bs) =
      cons_cong (rw (exceptions_to-recoded b.exceptions) refl) (basins_to-recoded bs)

  to_stored-recoded : (f : Facility) → to_stored (recoded f) ≡ to_stored f
  unfolding to_stored
  to_stored-recoded f = rw (basins_to-recoded f.basins, closures_to-recoded f.closures) refl

  -- A facility that is stored and read back is the same but for the codes of its closures and
  -- exceptions, whatever codes they had: those are constructed again from their reasons. The time
  -- ranges and windows have to be valid and the sets in their order.
  pub from_stored-recoded :
      (f : Facility) → IsValid f → from_stored casefold (to_stored f) ≡ some (recoded f)
  from_stored-recoded f (basins, season, features) =
      ap (from_stored casefold) (sym (to_stored-recoded f))
      ∙ from_stored-to_stored casefold (recoded f) (
        recoded_basins-IsBasin f.basins basins,
        recoded_closures-IsClosure f.closures,
        season,
        features,
      )
