-- ===== src/Panel/Best.antt =====
-- `best_public_time` against `lane_availability_at` (src/swimzh/domain/lane_plan.py).
use swimming_in_zurich.Base.{
  ℕ, ◌≤◌, ◌<◌, true, ◌&&◌, &&-true, ◌==◌, if◌then◌else◌, Option, none, some, List, [], ◌∷◌, any,
  length, ◌≡◌, ◌≢◌, refl, sym, ap, subst, ◌∙◌, ◌⊎◌, inl, inr, arith, In, All, All-In, All-of_In,
  In-of_any, Bool-cases,
}
use swimming_in_zurich.Base.FrozenSet.{contains as has, IsCanonical-ext}
use swimming_in_zurich.Dates.{Time}
use swimming_in_zurich.Schedule.{Weekday, TimeRange, contains}
use swimming_in_zurich.Models.{LanePlan}
use swimming_in_zurich.Lanes.{lane_availability_at, split_at, pairwise}
use swimming_in_zurich.Panel.{
  Hold, PublicWindow, public_holds, hold_bounds, lanes_in, windows, best_of, first_best,
  best_public_time,
}
use swimming_in_zurich.Panel.Holds.{
  inside, opens, hold_opens, split_at-IsCanonical, split_at-public, public_holds-opens,
}
use swimming_in_zurich.Panel.Cuts.{
  lanes_in-IsCanonical, hold_bounds-IsCanonical, hold_bounds-has, pairwise-filled, pairwise-cut,
  lanes_in-opens,
}
use swimming_in_zurich.Panel.Windows.{
  IsConstant, IsWindow, windows-IsWindow, Reaches, windows-Reaches, best_of-In, best_of-most,
}

contains-from : (r : TimeRange) (t : Time) → contains r t ≡ true → r.start ≤ t
unfolding contains
contains-from r t h = ground arith

contains-until : (r : TimeRange) (t : Time) → contains r t ≡ true → t < r.end
unfolding contains
contains-until r t h = ground arith

-- The public lanes at a moment, as `lane_availability_at` counts them.
abbrev pub public_at : LanePlan → Weekday → Time → ℕ
public_at plan d t = (lane_availability_at plan d t).public_lanes

some_lane : (s : List ℕ) → length s ≢ 0 → (y : ℕ) × (has s y ≡ true)
unfolding has
some_lane [] n = absurd (n refl)
some_lane (y ∷ ys) n = (y, ground arith)

module _ (plan : LanePlan) (d : Weekday) (within : Option TimeRange) where
  abbrev holds : List Hold
  holds = public_holds plan.reservations d within

  abbrev cuts : List TimeRange
  cuts = pairwise (hold_bounds holds)

  -- The public lanes in the range asked for.
  abbrev offered : Time → ℕ
  offered t = if inside within t then public_at plan d t else 0

  -- A cut offers, at each of its moments, the lanes that are public there.
  cut-has :
      (cut : TimeRange) (t : Time) (y : ℕ)
      → In cut cuts
      → cut.start ≤ t
      → t < cut.end
      → has (lanes_in holds cut) y ≡ (inside within t && has (split_at plan d t).public y)
  cut-has cut t y m p q =
      lanes_in-opens holds cut t y m p q
      ∙ public_holds-opens plan.reservations d within t y
      ∙ ap (λ b. inside within t && b) (sym (split_at-public plan d t y))

  cut-offered :
      (cut : TimeRange) (t : Time)
      → In cut cuts
      → cut.start ≤ t
      → t < cut.end
      → offered t ≡ length (lanes_in holds cut)
  unfolding lane_availability_at has
  cut-offered cut t m p q = elim (Bool-cases (inside within t)) [
    | inl i ↦ rw i (
        ap length (
          sym (
            IsCanonical-ext (lanes_in holds cut) (split_at plan d t).public
              (lanes_in-IsCanonical holds cut) (split_at-IsCanonical plan d t)
              (λ y. cut-has cut t y m p q ∙ ap (λ b. b && has (split_at plan d t).public y) i))))
    | inr i ↦ rw i (
        ap length (
          sym (
            IsCanonical-ext (lanes_in holds cut) [] (lanes_in-IsCanonical holds cut) tt
              (λ y. cut-has cut t y m p q ∙ ap (λ b. b && has (split_at plan d t).public y) i))))
  ]

  cuts-steady : All (λ cut. IsConstant offered cut (length (lanes_in holds cut))) cuts
  cuts-steady = All-of_In _ cuts λ cut m. (
    pairwise-filled (hold_bounds holds) cut (hold_bounds-IsCanonical holds) m,
    λ t p q. cut-offered cut t m p q,
  )

  -- A moment with a public lane lies in a cut.
  public-cut :
      (t : Time)
      → inside within t ≡ true
      → public_at plan d t ≢ 0
      → (cut : TimeRange) × In cut cuts × (cut.start ≤ t) × (t < cut.end)
  unfolding lane_availability_at
  public-cut t i n =
      let (y, k) = some_lane (split_at plan d t).public n in
      let opened : any (hold_opens t y) holds ≡ true =
        public_holds-opens plan.reservations d within t y
        ∙ ap (λ b. b && any (opens d t y) plan.reservations) i
        ∙ sym (split_at-public plan d t y)
        ∙ k in
      let (h, m, both) = In-of_any (hold_opens t y) holds opened in
      let (holding, _) = &&-true (contains h.0 t) (has h.1 y) both in
      let (starts, ends) = hold_bounds-has holds h m in
      pairwise-cut (hold_bounds holds) h.0.start h.0.end t (hold_bounds-IsCanonical holds) starts
        ends (contains-from h.0 t holding) (contains-until h.0 t holding)

  public-Reaches :
      (t : Time)
      → inside within t ≡ true
      → public_at plan d t ≢ 0
      → Reaches (public_at plan d t) (windows holds cuts)
  public-Reaches t i n =
      let (cut, m, p, q) = public-cut t i n in
      let same : public_at plan d t ≡ length (lanes_in holds cut) =
        ap (λ b. if b then public_at plan d t else 0) (sym i) ∙ cut-offered cut t m p q in
      subst (λ (k : ℕ). Reaches k (windows holds cuts)) (sym same)
        (windows-Reaches holds cuts cut m (λ z. n (same ∙ z)))

  -- A window of the range asked for, over the whole of which this many lanes are public.
  pub record IsBest (w : PublicWindow) : Type 0 where
    pub filled : w.time.start < w.time.end
    pub public : 0 < w.public_lanes
    pub throughout :
        (t : Time)
        → w.time.start ≤ t
        → t < w.time.end
        → (inside within t ≡ true) × (public_at plan d t ≡ w.public_lanes)
    pub most : (t : Time) → inside within t ≡ true → public_at plan d t ≤ w.public_lanes

  window-throughout :
      (w : PublicWindow)
      → IsWindow offered w
      → (t : Time) → w.time.start ≤ t
      → t < w.time.end
      → (inside within t ≡ true) × (public_at plan d t ≡ w.public_lanes)
  window-throughout w h t p q =
      let n : offered t ≡ w.public_lanes = h.1.1 t p q in
      let some_open : 0 < w.public_lanes = h.0 in
      elim (Bool-cases (inside within t)) [
        | inl i ↦ (i, ap (λ b. if b then public_at plan d t else 0) (sym i) ∙ n)
        | inr i ↦
            let none_open : 0 ≡ w.public_lanes =
              ap (λ b. if b then public_at plan d t else 0) (sym i) ∙ n in
            absurd (omega arith)
      ]

  -- What the choice gives, by the windows it is made from.
  first_best-IsBest :
      (ws : List PublicWindow)
      → All (IsWindow offered) ws
      → ((t : Time)
          → inside within t ≡ true
          → public_at plan d t ≢ 0
          → Reaches (public_at plan d t) ws)
      → ((w : PublicWindow) × (first_best ws ≡ some w) × IsBest w)
        ⊎ ((first_best ws ≡ none) × ((t : Time) → inside within t ≡ true → public_at plan d t ≡ 0))
  unfolding first_best
  first_best-IsBest [] a reach = inr (
    refl,
    λ t i. elim (Bool-cases (public_at plan d t == 0)) [
      | inl e ↦ ground arith
      | inr e ↦ absurd ((reach t i (λ z. absurd (ground arith))).1)
    ],
  )
  first_best-IsBest (v ∷ ws) a reach =
      let best = best_of v ws in
      let is_window = All-In (IsWindow offered) best (v ∷ ws) a (best_of-In v ws) in
      inl (
        best,
        refl,
        record {
          filled = is_window.1.0;
          public = is_window.0;
          throughout = window-throughout best is_window;
          most = λ t i. elim (Bool-cases (public_at plan d t == 0)) [
            | inl e ↦ ground arith
            | inr e ↦
                let (w, m, same) = reach t i (λ z. absurd (ground arith)) in
                let top = best_of-most v ws w m in omega arith
          ];
        },
      )

-- The window that is recommended is the best: it is not empty, lies in the range asked for, and at
-- each of its moments `lane_availability_at` counts the same number of public lanes, the one stated,
-- which is not zero and which no moment of the range exceeds. And there is none only if no moment of
-- the range has a public lane.
pub best_public_time-IsBest :
    (plan : LanePlan) (d : Weekday) (within : Option TimeRange)
    → ((w : PublicWindow) × (best_public_time plan d within ≡ some w) × IsBest plan d within w)
      ⊎ ((best_public_time plan d within ≡ none)
          × ((t : Time) → inside within t ≡ true → public_at plan d t ≡ 0))
unfolding best_public_time
best_public_time-IsBest plan d within =
    first_best-IsBest plan d within (windows (holds plan d within) (cuts plan d within))
      (windows-IsWindow (offered plan d within) (holds plan d within) (cuts plan d within)
        (cuts-steady plan d within))
      (public-Reaches plan d within)
