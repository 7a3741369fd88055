-- ===== src/Lanes/Runs.antt =====
-- `_public_run_end` (src/swimzh/domain/lane_plan.py): the end of the public time around a moment.
use swimming_in_zurich.Base.{
  ◌≤◌, ◌<◌, Bool, true, false, ltb, ltb→lt, none, some, List, [], ◌∷◌, ◌≡◌, refl, sym, ◌∙◌, subst,
  inl, inr, arith, In, All, All-In, All-of_In, find_first, find_first-In, find_first-none,
  any-of_In, In-of_any, Bool-cases, Option-cases, ◌↔◌,
}
use swimming_in_zurich.Base.Sort.{sort, In-sort, In-sort_of, sort-Ascending}
use swimming_in_zurich.Dates.{Time, pair_le}
use swimming_in_zurich.Access.{is_public}
use swimming_in_zurich.Schedule.{Weekday, TimeRange, contains, on_weekday}
use swimming_in_zurich.Models.{LanePlan, LaneReservation}
use swimming_in_zurich.Lanes.{range_le, public_ranges, merge_ranges, public_run_end}
use swimming_in_zurich.Lanes.Moment.{In-public_ranges, In-public_ranges_of}
use swimming_in_zurich.Lanes.Merge.{covers, Apart, Merges, merge_ranges-Merges}

before-uncovered :
    (u : Time) (rs : List TimeRange) → All (λ r. u < r.start) rs → covers rs u ≡ false
unfolding contains
before-uncovered u [] h = refl
before-uncovered u (r ∷ rs) h = ground (arith, before-uncovered u rs h.1)

end-uncovered :
    (r : TimeRange) (rs : List TimeRange)
    → All (λ q. r.end < q.start) rs
    → covers (r ∷ rs) r.end ≡ false
unfolding contains
end-uncovered r rs h = ground (arith, before-uncovered r.end rs h)

-- The end of a run is in no run.
run_end-uncovered :
    (runs : List TimeRange) (run : TimeRange)
    → Apart runs
    → All (λ q. q.start < q.end) runs
    → In run runs
    → covers runs run.end ≡ false
run_end-uncovered [] run a f m = refl
run_end-uncovered (q ∷ qs) run a f (inl e) =
    subst (λ (x : TimeRange). covers (q ∷ qs) x.end ≡ false) (sym e) (end-uncovered q qs a.0)
run_end-uncovered (q ∷ qs) run a f (inr m) = rw (past, run_end-uncovered qs run a.1 f.1 m)
  where
    past : contains q run.end ≡ false
    past =
        unfold contains in
        ground (
          arith,
          All-In (λ x. q.end < x.start) run qs a.0 m,
          All-In (λ x. x.start < x.end) run qs f.1 m,
        )

-- A reservation of the weekday holds lanes for the public at the moment.
abbrev pub PublicAt : LanePlan → Weekday → Time → Type 0
PublicAt plan d u =
    (v : LaneReservation) × In v plan.reservations
    × (on_weekday d v.weekdays ≡ true)
    × (is_public v.access ≡ true)
    × (contains v.time u ≡ true)

-- The times of a plan are ranges that their constructor accepts.
abbrev pub HasRanges : LanePlan → Type 0
HasRanges plan = All (λ v. v.time.start < v.time.end) plan.reservations

-- `e` ends the public time around `t`.
abbrev pub EndsPublic : LanePlan → Weekday → Time → Time → Type 0
EndsPublic plan d t e =
    (t < e) × ((u : Time) → t ≤ u → u < e → PublicAt plan d u) × ¬ PublicAt plan d e

module _ (plan : LanePlan) (d : Weekday) (valid : HasRanges plan) where
  ranges : List TimeRange
  ranges = sort range_le (public_ranges plan.reservations d)

  runs : List TimeRange
  runs = merge_ranges ranges

  ranges-filled : All (λ r. r.start < r.end) ranges
  unfolding ranges
  ranges-filled =
      All-of_In (λ r. r.start < r.end) _
        λ r m.
          let (v, listed, _, _, e) =
            In-public_ranges plan.reservations d r (In-sort range_le r _ m) in
          rw e (All-In (λ x. x.time.start < x.time.end) v plan.reservations valid listed)

  merges : Merges ranges runs
  unfolding runs ranges
  merges =
      merge_ranges-Merges ranges ranges-filled
        (sort-Ascending range_le total trans (public_ranges plan.reservations d))
    where
      total : (a b : TimeRange) → range_le a b ≡ false → range_le b a ≡ true
      total a b h = unfold pair_le in ground arith

      trans : (a b c : TimeRange) → range_le a b ≡ true → range_le b c ≡ true → range_le a c ≡ true
      trans a b c h k = unfold pair_le in ground arith

  PublicAt-iff_covers : (u : Time) → (covers runs u ≡ true) ↔ PublicAt plan d u
  unfolding ranges
  PublicAt-iff_covers u = (to, from)
    where
      to : covers runs u ≡ true → PublicAt plan d u
      to h =
          let (r, m, c) = In-of_any (λ r. contains r u) ranges (sym (merges.same u) ∙ h) in
          let (v, listed, on, shown, e) =
            In-public_ranges plan.reservations d r (In-sort range_le r _ m) in
          (v, listed, on, shown, rw e at c)

      from : PublicAt plan d u → covers runs u ≡ true
      from (v, listed, on, shown, c) =
          merges.same u
          ∙ any-of_In (λ r. contains r u) v.time ranges
              (In-sort_of range_le v.time _
                (In-public_ranges_of plan.reservations d v listed on shown))
              c

  run_of :
      (t e : Time)
      → public_run_end plan d t ≡ some e
      → (run : TimeRange) × In run runs × (contains run t ≡ true) × (run.end ≡ e)
  unfolding public_run_end runs ranges
  run_of t e h = elim (Option-cases (find_first (λ r. contains r t) runs)) [
    | inl n ↦ absurd (clash (rw n at h))
    | inr (run, f) ↦
        let (m, c) = find_first-In (λ r. contains r t) run runs f in
        (run, m, c, ended run (rw f at h))
  ]
    where
      clash : none ≡ some e → ⊥
      clash k = cc

      ended : (run : TimeRange) → some run.end ≡ some e → run.end ≡ e
      ended run k = cc

  EndsPublic-of_run_end : (t e : Time) → public_run_end plan d t ≡ some e → EndsPublic plan d t e
  EndsPublic-of_run_end t e h =
      let (run, m, c, same) = run_of t e h in
      let (before, inside) = in_range run c in
      (
        rw same at inside,
        λ u p q.
            (PublicAt-iff_covers u).0
              (any-of_In (λ r. contains r u) run runs m (still run u before p (rw (← same) at q))),
        λ shown. absurd (
            clash (rw same at (run_end-uncovered runs run merges.apart merges.filled m))
              ((PublicAt-iff_covers e).1 shown)),
      )
    where
      in_range : (run : TimeRange) → contains run t ≡ true → (run.start ≤ t) × (t < run.end)
      in_range run c = unfold contains in ground arith

      still :
          (run : TimeRange) (u : Time) → run.start ≤ t → t ≤ u → u < run.end → contains run u ≡ true
      still run u a b c = unfold contains in ground arith

      clash : {b : Bool} → b ≡ false → b ≡ true → ⊥
      clash p q = cc

  closed_of_none : (t : Time) → public_run_end plan d t ≡ none → ¬ PublicAt plan d t
  unfolding public_run_end runs ranges
  closed_of_none t h shown =
      let (run, m, c) = In-of_any (λ r. contains r t) runs ((PublicAt-iff_covers t).1 shown) in
      elim (Option-cases (find_first (λ r. contains r t) runs)) [
        | inl n ↦ absurd (clash (find_first-none (λ r. contains r t) run runs n m) c)
        | inr (x, f) ↦ absurd (differ x (rw f at h))
      ]
    where
      clash : {b : Bool} → b ≡ false → b ≡ true → ⊥
      clash p q = cc

      differ : (x : TimeRange) → some x.end ≡ none → ⊥
      differ x k = cc

  EndsPublic-unique : (t e e' : Time) → EndsPublic plan d t e → EndsPublic plan d t e' → e ≡ e'
  EndsPublic-unique t e e' h k = elim (Bool-cases (ltb e e')) [
    | inl l ↦ absurd (h.2 (k.1 e (omega (arith, h.0)) (ltb→lt e e' l)))
    | inr l ↦ elim (Bool-cases (ltb e' e)) [
      | inl m ↦ absurd (k.2 (h.1 e' (omega (arith, k.0)) (ltb→lt e' e m)))
      | inr m ↦ ground arith
    ]
  ]

  -- The public run around a moment ends at `e` exactly when `e` is later, every moment from then up
  -- to `e` lies in a public reservation of the weekday, and `e` itself does not, so that adjacent and
  -- overlapping public blocks count as one; and there is no such end exactly when no public
  -- reservation holds the moment. The times of the plan are valid ranges.
  pub public_run_end-EndsPublic :
      (t : Time)
      → ((e : Time) → (public_run_end plan d t ≡ some e) ↔ EndsPublic plan d t e)
        × ((public_run_end plan d t ≡ none) ↔ (¬ PublicAt plan d t))
  public_run_end-EndsPublic t =
      (λ e. (EndsPublic-of_run_end t e, run_end_of e), (closed_of_none t, none_of_closed))
    where
      public_before : (e : Time) → EndsPublic plan d t e → PublicAt plan d t
      public_before e h = h.1 t (omega arith) h.0

      run_end_of : (e : Time) → EndsPublic plan d t e → public_run_end plan d t ≡ some e
      run_end_of e h = elim (Option-cases (public_run_end plan d t)) [
        | inl n ↦ absurd (closed_of_none t n (public_before e h))
        | inr (x, f) ↦ rw (f, EndsPublic-unique t x e (EndsPublic-of_run_end t x f) h)
      ]

      none_of_closed : ¬ PublicAt plan d t → public_run_end plan d t ≡ none
      none_of_closed h = elim (Option-cases (public_run_end plan d t)) [
        | inl n ↦ n
        | inr (x, f) ↦ absurd (h (public_before x (EndsPublic-of_run_end t x f)))
      ]
