-- ===== src/Query/Answer.antt =====
-- The answer of `find_swim_options` (src/swimzh/domain/query.py) as a whole: its options are exactly
-- the sessions of the basins in reach.
use swimming_in_zurich.Base.{
  Bool, Option, none, some, List, [], ◌∷◌, ◌≡◌, refl, sym, ap, subst, ◌⊎◌, inl, inr, ◌↔◌,
  Bool-cases, ℕ, In, In-append, In-append_left, In-append_right,
}
use swimming_in_zurich.Base.Sort.{sort, In-sort, In-sort_of}
use swimming_in_zurich.Calendar.{ZurichCalendar}
use swimming_in_zurich.Models.{Facility}
use swimming_in_zurich.Catalog.{RosterEntry}
use swimming_in_zurich.Query.Types.{
  Platform, SwimQuery, SwimOption, FacilityStatus, QueryResult, OccupancyProvider,
}
use swimming_in_zurich.Query.Statuses.{schedule_less_statuses}
use swimming_in_zurich.Query.Visit.{
  Request, Found, start_visit, is_beyond, visit_facility, visit_facilities, after_visit,
}
use swimming_in_zurich.Query.Search.{
  run_query, request_of, find_swim_options, answer, nothing_found, option_le, result_of,
}
use swimming_in_zurich.Query.Options.{
  FromFacility, visit_basins-adds, visit_basins-In, visit_facility-beyond, visit_facility-within,
}

pub after_visit-inversion :
    (o : Option Found) (next : Found → Option Found) (end : Found)
    → after_visit o next ≡ some end
    → (found : Found) × (o ≡ some found) × (next found ≡ some end)
after_visit-inversion none next end h = absurd (cc)
after_visit-inversion (some found) next end h = (found, refl, h)

module _ (r : Request) (o : SwimOption) where
  visit_facility-In :
      (f : Facility) (found next : Found)
      → visit_facility r f found ≡ some next
      → In o next.options ↔ (In o found.options ⊎ FromFacility r f o)
  visit_facility-In f found next h = (to, from)
    where
      to : In o next.options → In o found.options ⊎ FromFacility r f o
      to m = elim (Bool-cases (is_beyond r f)) [
        | inl t ↦ inl (rw (visit_facility-beyond r f o found next t h) at m)
        | inr t ↦
            elim (In-append o found.options _
              (rw (visit_facility-within r f o found next t h) at m)) [
                | inl old ↦ inl old
                | inr new ↦ elim (visit_basins-In r f o f.basins start_visit new) [
                  | inl e ↦ absurd e
                  | inr basin ↦ inr (t, basin)
                ]
              ]
      ]

      from : In o found.options ⊎ FromFacility r f o → In o next.options
      from (inl old) = elim (Bool-cases (is_beyond r f)) [
        | inl t ↦ rw (visit_facility-beyond r f o found next t h) old
        | inr t ↦
            rw (visit_facility-within r f o found next t h) (In-append_left o found.options _ old)
      ]
      from (inr (t, (basin, m, b))) = rw (visit_facility-within r f o found next t h) (
          In-append_right o found.options _
            (visit_basins-adds r f o f.basins start_visit basin m b))

  abbrev FromSome : List Facility → Type 0
  FromSome fs = (f : Facility) × In f fs × FromFacility r f o

  -- One round, given what the rest of the loop does.
  one_more :
      (f : Facility) (fs : List Facility) (found next end : Found)
      → (In o next.options ↔ (In o found.options ⊎ FromFacility r f o))
      → (In o end.options ↔ (In o next.options ⊎ FromSome fs))
      → In o end.options ↔ (In o found.options ⊎ FromSome (f ∷ fs))
  one_more f fs found next end first rest = (to, from)
    where
      to_first : In o found.options ⊎ FromFacility r f o → In o found.options ⊎ FromSome (f ∷ fs)
      to_first (inl old) = inl old
      to_first (inr new) = inr (f, inl refl, new)

      to_rest : In o next.options ⊎ FromSome fs → In o found.options ⊎ FromSome (f ∷ fs)
      to_rest (inl m) = to_first (first.0 m)
      to_rest (inr (g, m, new)) = inr (g, inr m, new)

      to : In o end.options → In o found.options ⊎ FromSome (f ∷ fs)
      to m = to_rest (rest.0 m)

      from : In o found.options ⊎ FromSome (f ∷ fs) → In o end.options
      from (inl old) = rest.1 (inl (first.1 (inl old)))
      from (inr (g, inl e, new)) =
          rest.1 (inl (first.1 (inr (subst (λ (x : Facility). FromFacility r x o) e new))))
      from (inr (g, inr m, new)) = rest.1 (inr (g, m, new))

  visit_facilities-In :
      (fs : List Facility) (found end : Found)
      → visit_facilities r fs found ≡ some end
      → In o end.options ↔ (In o found.options ⊎ FromSome fs)
  unfolding visit_facilities
  visit_facilities-In [] found end h =
      (λ m. inl (subst (λ (x : Found). In o x.options) (sym same) m), back)
    where
      same : found ≡ end
      same = cc

      back : In o found.options ⊎ FromSome [] → In o end.options
      back (inl m) = subst (λ (x : Found). In o x.options) same m
      back (inr (f, m, new)) = absurd m
  visit_facilities-In (f ∷ fs) found end h =
      let (next, e, k) =
        after_visit-inversion (visit_facility r f found) (visit_facilities r fs) end h in
      one_more f fs found next end (visit_facility-In f found next e)
        (visit_facilities-In fs next end k)

pub answer-inversion :
    (r : Request) (a : Option Found) (b : Option (List FacilityStatus)) (res : QueryResult)
    → answer r a b ≡ some res
    → (found : Found) × (a ≡ some found)
      × ((rows : List FacilityStatus) × (b ≡ some rows) × (result_of r found rows ≡ res))
answer-inversion r none b res h = absurd (cc)
answer-inversion r (some found) none res h = absurd (cc)
answer-inversion r (some found) (some rows) res h = (found, refl, (rows, refl, cc))

-- The answer's options are those found, sorted.
sorted_options :
    (r : Request) (found : Found) (rows : List FacilityStatus) (res : QueryResult) (o : SwimOption)
    (Offered : Type 0)
    → result_of r found rows ≡ res
    → (In o found.options ↔ (⊥ ⊎ Offered))
    → In o res.options ↔ Offered
sorted_options r found rows res o Offered same listed = (
  λ m. offered (listed.0 (In-sort le o found.options (rw (← same_options) at m))),
  λ k. rw (← same_options) (In-sort_of le o found.options (listed.1 (inr k))),
)
  where
    le : SwimOption → SwimOption → Bool
    le = option_le r.platform.floats

    same_options : sort le found.options ≡ res.options
    same_options = ap (λ (x : QueryResult). x.options) same

    offered : ⊥ ⊎ Offered → Offered
    offered (inl e) = absurd e
    offered (inr k) = k

-- The options of an answer are exactly the sessions on offer: an option is in the answer if and only
-- if it is the option built from a session of the open day that the resolver gives for a basin with
-- rules of a facility not beyond the radius. None is lost, added or moved to another facility.
pub find_swim_options-FromFacility :
    (w : Platform) (query : SwimQuery) (facilities : List Facility) (calendar : ZurichCalendar)
    (roster : List RosterEntry) (occupancy : Option OccupancyProvider) (now : ℕ) (res : QueryResult)
    → find_swim_options w query facilities calendar roster occupancy now ≡ some res
    → (o : SwimOption)
    → In o res.options ↔ (
        (facility : Facility) × In facility facilities
        × FromFacility (request_of w query calendar now occupancy) facility o)
unfolding find_swim_options run_query
find_swim_options-FromFacility w query facilities calendar roster occupancy now res h o =
    let r = request_of w query calendar now occupancy in
    let (found, e, (rows, k, same)) =
      answer-inversion r (visit_facilities r facilities nothing_found)
        (schedule_less_statuses r.platform r.query facilities roster) res h in
    let listed = visit_facilities-In r o facilities nothing_found found e in
    sorted_options r found rows res o _ same listed
