-- ===== src/Panel/Windows.antt =====
-- The windows of `best_public_time` (src/swimzh/domain/lane_plan.py), for any count of lanes that is
-- constant over each cut.
use swimming_in_zurich.Base.{
  ℕ, ◌≤◌, ◌<◌, Bool, true, false, ◌&&◌, ltb, ◌==◌, if◌then◌else◌, List, [], ◌∷◌, length, ◌≡◌, ◌≢◌,
  refl, sym, ap, subst, inl, inr, arith, In, All, Bool-cases,
}
use swimming_in_zurich.Dates.{Time}
use swimming_in_zurich.Schedule.{TimeRange, span}
use swimming_in_zurich.Panel.{Hold, PublicWindow, lanes_in, window, windows_from, windows, best_of}

if-cases :
    {A : Type 0} (P : A → Type 0) (b : Bool) (x y : A)
    → (b ≡ true → P x)
    → (b ≡ false → P y)
    → P (if b then x else y)
if-cases P true x y h k = h refl
if-cases P false x y h k = k refl

module _ (count_at : Time → ℕ) where
  -- The count holds over the whole of a range that is not empty.
  abbrev pub IsConstant : TimeRange → ℕ → Type 0
  IsConstant r n = (r.start < r.end) × ((t : Time) → r.start ≤ t → t < r.end → count_at t ≡ n)

  abbrev pub IsWindow : PublicWindow → Type 0
  IsWindow w = (0 < w.public_lanes) × IsConstant w.time w.public_lanes

  IsConstant-merge :
      (a b c d n : ℕ)
      → IsConstant (span a b) n
      → IsConstant (span c d) n
      → b ≡ c
      → IsConstant (span a d) n
  IsConstant-merge a b c d n h k e = (
    omega arith,
    λ t p q. elim (Bool-cases (ltb t b)) [
      | inl u ↦ h.1 t p (ground arith)
      | inr u ↦ k.1 t (ground arith) q
    ],
  )

  module _ (holds : List Hold) where
    abbrev IsSteady : TimeRange → Type 0
    IsSteady cut = IsConstant cut (length (lanes_in holds cut))

    windows_from-IsWindow :
        (last : PublicWindow) (cuts : List TimeRange)
        → IsWindow last
        → All IsSteady cuts
        → All IsWindow (windows_from last holds cuts)
    unfolding windows_from
    windows_from-IsWindow last [] h a = (h, tt)
    windows_from-IsWindow last (cut ∷ cuts) h a =
        let count = length (lanes_in holds cut) in
        if-cases (All IsWindow) (count == 0) _ _ (λ e. windows_from-IsWindow last cuts h a.1)
          (λ e.
            if-cases (All IsWindow) (last.public_lanes == count && last.time.end == cut.start) _ _
              (λ k.
                windows_from-IsWindow (window (span last.time.start cut.end) count) cuts
                  (ground arith, merged cut count (ground arith) (ground arith) a.0) a.1)
              (λ k. (h, windows_from-IsWindow (window cut count) cuts (ground arith, a.0) a.1)))
      where
        merged :
            (next : TimeRange) (n : ℕ)
            → last.public_lanes ≡ n
            → last.time.end ≡ next.start
            → IsConstant next n
            → IsConstant (span last.time.start next.end) n
        merged next n e k c =
            IsConstant-merge last.time.start last.time.end next.start next.end n
              (subst (λ (m : ℕ). IsConstant last.time m) e h.1) c k

    pub windows-IsWindow :
        (cuts : List TimeRange) → All IsSteady cuts → All IsWindow (windows holds cuts)
    unfolding windows
    windows-IsWindow [] a = tt
    windows-IsWindow (cut ∷ cuts) a =
        if-cases (All IsWindow) (length (lanes_in holds cut) == 0) _ _
          (λ e. windows-IsWindow cuts a.1)
          (λ e.
            windows_from-IsWindow (window cut (length (lanes_in holds cut))) cuts
              (ground arith, a.0) a.1)

-- Some window has this many lanes.
abbrev pub Reaches : ℕ → List PublicWindow → Type 0
Reaches n ws = (w : PublicWindow) × In w ws × (w.public_lanes ≡ n)

module _ (holds : List Hold) where
  windows_from-last :
      (last : PublicWindow) (cuts : List TimeRange)
      → Reaches last.public_lanes (windows_from last holds cuts)
  unfolding windows_from
  windows_from-last last [] = (last, inl refl, refl)
  windows_from-last last (cut ∷ cuts) =
      let count = length (lanes_in holds cut) in
      if-cases (Reaches last.public_lanes) (count == 0) _ _ (λ e. windows_from-last last cuts)
        (λ e.
          if-cases (Reaches last.public_lanes)
            (last.public_lanes == count && last.time.end == cut.start) _ _
            (λ k.
              subst
                (λ (n : ℕ).
                  Reaches n (windows_from (window (span last.time.start cut.end) count) holds cuts))
                (ground arith)
                (windows_from-last (window (span last.time.start cut.end) count) cuts))
            (λ k. (last, inl refl, refl)))

  windows_from-Reaches :
      (last : PublicWindow) (cuts : List TimeRange) (cut : TimeRange)
      → In cut cuts
      → length (lanes_in holds cut) ≢ 0
      → Reaches (length (lanes_in holds cut)) (windows_from last holds cuts)
  unfolding windows_from
  windows_from-Reaches last [] cut m n = absurd m
  windows_from-Reaches last (c ∷ cuts) cut (inl i) n =
      let count = length (lanes_in holds c) in
      let same : length (lanes_in holds cut) ≡ count =
        ap (λ (x : TimeRange). length (lanes_in holds x)) i in
      subst (λ (k : ℕ). Reaches k (windows_from last holds (c ∷ cuts))) (sym same)
        (if-cases (Reaches count) (count == 0) _ _ (λ e. absurd (ground arith))
          (λ e.
            if-cases (Reaches count) (last.public_lanes == count && last.time.end == c.start) _ _
              (λ k. windows_from-last (window (span last.time.start c.end) count) cuts)
              (λ k.
                later last (window c count) cuts count (windows_from-last (window c count) cuts))))
    where
      later :
          (w first : PublicWindow) (rest : List TimeRange) (k : ℕ)
          → Reaches k (windows_from first holds rest)
          → Reaches k (w ∷ windows_from first holds rest)
      later w first rest k (v, m, e) = (v, inr m, e)
  windows_from-Reaches last (c ∷ cuts) cut (inr m) n =
      let count = length (lanes_in holds c) in
      let wanted = length (lanes_in holds cut) in
      if-cases (Reaches wanted) (count == 0) _ _ (λ e. windows_from-Reaches last cuts cut m n)
        (λ e.
          if-cases (Reaches wanted) (last.public_lanes == count && last.time.end == c.start) _ _
            (λ k. windows_from-Reaches (window (span last.time.start c.end) count) cuts cut m n)
            (λ k.
              let (v, i, same) = windows_from-Reaches (window c count) cuts cut m n in
              (v, inr i, same)))

  pub windows-Reaches :
      (cuts : List TimeRange) (cut : TimeRange)
      → In cut cuts
      → length (lanes_in holds cut) ≢ 0
      → Reaches (length (lanes_in holds cut)) (windows holds cuts)
  unfolding windows
  windows-Reaches [] cut m n = absurd m
  windows-Reaches (c ∷ cuts) cut (inl i) n =
      let count = length (lanes_in holds c) in
      let same : length (lanes_in holds cut) ≡ count =
        ap (λ (x : TimeRange). length (lanes_in holds x)) i in
      subst (λ (k : ℕ). Reaches k (windows holds (c ∷ cuts))) (sym same)
        (if-cases (Reaches count) (count == 0) _ _ (λ e. absurd (ground arith))
          (λ e. windows_from-last (window c count) cuts))
  windows-Reaches (c ∷ cuts) cut (inr m) n =
      if-cases (Reaches (length (lanes_in holds cut))) (length (lanes_in holds c) == 0) _ _
        (λ e. windows-Reaches cuts cut m n)
        (λ e. windows_from-Reaches (window c (length (lanes_in holds c))) cuts cut m n)

-- The window picked is one of them, and has the most lanes.
pub best_of-In : (w : PublicWindow) (ws : List PublicWindow) → In (best_of w ws) (w ∷ ws)
unfolding best_of
best_of-In w [] = inl refl
best_of-In w (v ∷ ws) = elim (best_of-In (if ltb w.public_lanes v.public_lanes then v else w) ws) [
  | inl e ↦
      if-cases (λ (x : PublicWindow). best_of w (v ∷ ws) ≡ x → In (best_of w (v ∷ ws)) (w ∷ v ∷ ws))
        (ltb w.public_lanes v.public_lanes) v w (λ t k. inr (inl k)) (λ t k. inl k) e
  | inr m ↦ inr (inr m)
]

pub best_of-most :
    (w : PublicWindow) (ws : List PublicWindow) (v : PublicWindow)
    → In v (w ∷ ws)
    → v.public_lanes ≤ (best_of w ws).public_lanes
unfolding best_of
best_of-most w [] v (inl e) = rw e (omega arith)
best_of-most w [] v (inr m) = absurd m
best_of-most w (x ∷ ws) v (inr (inr m)) = best_of-most _ ws v (inr m)
best_of-most w (x ∷ ws) v (inl e) =
    let top = best_of-most (if ltb w.public_lanes x.public_lanes then x else w) ws _ (inl refl) in
    rw e (ground (arith, top))
best_of-most w (x ∷ ws) v (inr (inl e)) =
    let top = best_of-most (if ltb w.public_lanes x.public_lanes then x else w) ws _ (inl refl) in
    rw e (ground (arith, top))
