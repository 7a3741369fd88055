-- ===== src/Silver/Safety.antt =====
-- No lane plan is attached to a basin that does not declare its sheet (`attach_lane_plans` of
-- src/swimzh/etl/silver.py).
use swimming_in_zurich.Base.{
  true, Option, none, some, Option-cases, List, [], ◌∷◌, String, str_eq_iff, ◌≡◌, refl, sym, subst,
  ◌⊎◌, inl, inr, In, All, All-mono, Bool-cases, arith,
}
use swimming_in_zurich.Base.Maybe.{Given}
use swimming_in_zurich.Errors.{ok, Datetime}
use swimming_in_zurich.Errors.Chain.{Holds, >>=-Holds, Holds-of_ok}
use swimming_in_zurich.Models.{LanePlan, Basin, Facility}
use swimming_in_zurich.Silver.{BasinRef, ParsedPlan, BoundPlan, ref_eq}
use swimming_in_zurich.Silver.Bindings.{build_url_bindings}
use swimming_in_zurich.Silver.Join.{bind_plans}
use swimming_in_zurich.Silver.Attach.{
  LanePlanAttachment, plan_at, index_from, index_bound_plans, stamped, with_plan, with_basins,
  attach_basin, attach_basins, attach_facilities, attach_lane_plans,
}
use swimming_in_zurich.Silver.Grouped.{Each}
use swimming_in_zurich.Silver.Declared.{Declares, build_url_bindings-Declares}
use swimming_in_zurich.Silver.Origin.{Origin, Routes, bind_plans-Origin}

-- The elements of two lists of one length are related one by one.
abbrev pub Pairwise : {A B : Type 0} → (A → B → Type 0) → List A → List B → Type 0
Pairwise R [] [] = Unit
Pairwise R [] (_ ∷ _) = ⊥
Pairwise R (_ ∷ _) [] = ⊥
Pairwise R (x ∷ xs) (y ∷ ys) = R x y × Pairwise R xs ys

module _ (P : BasinRef → LanePlan → Type 0) where
  abbrev Indexed : List (BasinRef × LanePlan) → Type 0
  Indexed by_basin = (ref : BasinRef) → Given (P ref) (plan_at ref by_basin)

  ref_eq_sound : (r s : BasinRef) → ref_eq r s ≡ true → r ≡ s
  unfolding ref_eq
  ref_eq_sound (a, b) (c, d) h = ground (arith, str_eq_iff a c, str_eq_iff b d)

  Indexed-put :
      (ref : BasinRef) (plan : LanePlan) (by_basin : List (BasinRef × LanePlan))
      → P ref plan
      → Indexed by_basin
      → Indexed ((ref, plan) ∷ by_basin)
  unfolding plan_at
  Indexed-put ref plan by_basin p h r = elim (Bool-cases (ref_eq r ref)) [
    | inl e ↦ rw e (subst (λ q. P q plan) (sym (ref_eq_sound r ref e)) p)
    | inr e ↦ rw e (h r)
  ]

  index_from-Indexed :
      (repr : String → String) (bound : List BoundPlan) (by_basin : List (BasinRef × LanePlan))
      → All (λ bp. P (bp.pool_id, bp.basin_id) bp.plan) bound
      → Indexed by_basin
      → Holds Indexed (index_from repr bound by_basin)
  unfolding index_from
  index_from-Indexed repr [] by_basin a h = h
  index_from-Indexed repr (bp ∷ rest) by_basin a h =
      elim (Option-cases (plan_at (bp.pool_id, bp.basin_id) by_basin)) [
        | inl e ↦ rw e (index_from-Indexed repr rest _ a.1 (Indexed-put _ bp.plan by_basin a.0 h))
        | inr (plan, e) ↦ rw e tt
      ]

module _ (casefold : String → String) (facilities : List Facility) (plans : List ParsedPlan) where
  -- The plan was parsed from a sheet whose url a basin with these ids declares, and it is the plan of
  -- the whole sheet or of the section that the basin names.
  pub record FromSheet (pool basin : String) (plan : LanePlan) : Type 0 where
    pub parsed_plan : ParsedPlan
    pub section : Option String
    pub is_parsed : In parsed_plan plans
    pub declares :
        Declares facilities parsed_plan.source_url
          (record { pool_id = pool; basin_id = basin; section = section })
    pub routes :
        Routes casefold (record { pool_id = pool; basin_id = basin; section = section }) parsed_plan
    pub same : plan ≡ parsed_plan.plan

  abbrev At : BasinRef → LanePlan → Type 0
  At (pool, basin) plan = FromSheet pool basin plan

  Origin-FromSheet :
      (bp : BoundPlan)
      → Origin casefold (Declares facilities) plans bp
      → FromSheet bp.pool_id bp.basin_id bp.plan
  Origin-FromSheet bp o =
      subst (λ (x : BoundPlan). FromSheet x.pool_id x.basin_id x.plan) (sym o.same)
        (record {
          parsed_plan = o.parsed_plan;
          section = o.binding.section;
          is_parsed = o.is_parsed;
          declares = o.is_known;
          routes = o.routes;
          same = refl;
        })

  -- A basin is as it was, or the same with a plan of its sheet that is stamped with the run's time.
  abbrev pub Attached : Datetime → Facility → Basin → Basin → Type 0
  Attached fetched_at f b b2 =
      (b2 ≡ b)
      ⊎ ((plan : LanePlan) × FromSheet f.identity.facility_id b.basin_id plan
          × (b2 ≡ with_plan b (stamped plan fetched_at)))

  abbrev pub AttachedAll : Datetime → Facility → Facility → Type 0
  AttachedAll fetched_at f f2 =
      (f2 ≡ with_basins f f2.basins) × Pairwise (Attached fetched_at f) f.basins f2.basins

  attach_basin-Attached :
      (fetched_at : Datetime) (f : Facility) (b : Basin) (o : Option LanePlan)
      → Given (FromSheet f.identity.facility_id b.basin_id) o
      → Attached fetched_at f b (attach_basin f b o fetched_at).0
  attach_basin-Attached fetched_at f b none h = inl refl
  attach_basin-Attached fetched_at f b (some plan) h = inr (plan, h, refl)

  attach_basins-Attached :
      (fetched_at : Datetime) (f : Facility) (by_basin : List (BasinRef × LanePlan))
      (bs : List Basin)
      → Indexed At by_basin
      → Pairwise (Attached fetched_at f) bs (attach_basins f by_basin fetched_at bs).items
  unfolding attach_basins
  attach_basins-Attached fetched_at f by_basin [] h = tt
  attach_basins-Attached fetched_at f by_basin (b ∷ bs) h = (
    attach_basin-Attached fetched_at f b _ (h (f.identity.facility_id, b.basin_id)),
    attach_basins-Attached fetched_at f by_basin bs h,
  )

  attach_facilities-Attached :
      (fetched_at : Datetime) (by_basin : List (BasinRef × LanePlan)) (fs : List Facility)
      → Indexed At by_basin
      → Pairwise (AttachedAll fetched_at) fs (attach_facilities by_basin fetched_at fs).items
  unfolding attach_facilities
  attach_facilities-Attached fetched_at by_basin [] h = tt
  attach_facilities-Attached fetched_at by_basin (f ∷ fs) h = (
    (refl, attach_basins-Attached fetched_at f by_basin f.basins h),
    attach_facilities-Attached fetched_at by_basin fs h,
  )

-- When the lane plans are attached, every facility and every basin is as it was, but that a basin may
-- have got a lane plan. Such a plan is one of the parsed plans, unchanged but for the time of the run;
-- a basin with the same ids declares the url it was parsed from; and either it declares the whole
-- sheet, or the token of its section is in the header of the plan.
pub attach_lane_plans-AttachedAll :
    (casefold repr : String → String) (facilities : List Facility) (parsed_plans : List ParsedPlan)
    (fetched_at : Datetime) (a : LanePlanAttachment)
    → attach_lane_plans casefold repr facilities parsed_plans fetched_at ≡ ok a
    → Pairwise (AttachedAll casefold facilities parsed_plans fetched_at) facilities a.facilities
unfolding attach_lane_plans index_bound_plans plan_at
attach_lane_plans-AttachedAll casefold repr facilities plans fetched_at a h =
    Holds-of_ok Good (attach_lane_plans casefold repr facilities plans fetched_at) a h (
      >>=-Holds (Each (Declares facilities)) Good (build_url_bindings repr facilities) _
        (build_url_bindings-Declares repr facilities)
        λ url_bindings known.
          >>=-Holds (Indexed (At casefold facilities plans)) Good
            (index_bound_plans repr (bind_plans casefold plans url_bindings).bound) _
            (index_from-Indexed (At casefold facilities plans) repr
              (bind_plans casefold plans url_bindings).bound []
              (All-mono _ _ (bind_plans casefold plans url_bindings).bound
                (Origin-FromSheet casefold facilities plans)
                (bind_plans-Origin casefold (Declares facilities) plans url_bindings known))
              nothing)
            λ by_basin indexed.
              attach_facilities-Attached casefold facilities plans fetched_at by_basin facilities
                indexed)
  where
    Good : LanePlanAttachment → Type 0
    Good b = Pairwise (AttachedAll casefold facilities plans fetched_at) facilities b.facilities

    nothing : Indexed (At casefold facilities plans) []
    nothing ref = tt
