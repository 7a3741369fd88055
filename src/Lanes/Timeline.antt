-- ===== src/Lanes/Timeline.antt =====
-- `lane_availability_timeline` (src/swimzh/domain/lane_plan.py): the sub-windows tile the session,
-- and the lane split is constant over each of them.
use swimming_in_zurich.Base.{
  ◌≤◌, ◌<◌, true, ◌&&◌, ltb, lt→ltb, some, List, [], ◌∷◌, map, ◌≡◌, refl, sym, ap, ◌⊎◌, inl, inr,
  arith, In, Bool-cases,
}
use swimming_in_zurich.Base.FrozenSet.{add, contains as has, contains-add}
use swimming_in_zurich.Dates.{Time}
use swimming_in_zurich.Schedule.{Weekday, TimeRange, on_weekday, time_range}
use swimming_in_zurich.Models.{LanePlan, LaneReservation}
use swimming_in_zurich.Lanes.{
  LaneSlotAvailability, add_edge, cut_points, pairwise, slot_at, session_bounds,
  lane_availability_timeline,
}

-- An ascending list of moments from `lo` to `hi`.
abbrev Spans : Time → Time → List Time → Type 0
Spans lo hi [] = ⊥
Spans lo hi (x ∷ []) = (x ≡ lo) × (x ≡ hi)
Spans lo hi (x ∷ y ∷ ys) = (x ≡ lo) × (x < y) × Spans y hi (y ∷ ys)

add-Spans :
    (lo hi e : Time) (s : List Time) → lo < e → e < hi → Spans lo hi s → Spans lo hi (add e s)
unfolding add
add-Spans lo hi e [] p q h = absurd h
add-Spans lo hi e (x ∷ []) p q h = absurd (omega arith)
add-Spans lo hi e (x ∷ y ∷ ys) p q h = ground (arith, add-Spans y hi e (y ∷ ys))

add_edge-Spans :
    (w : TimeRange) (e : Time) (s : List Time)
    → Spans w.start w.end s
    → Spans w.start w.end (add_edge w e s)
unfolding add_edge
add_edge-Spans w e s h = elim (Bool-cases (ltb w.start e && ltb e w.end)) [
  | inl t ↦ rw t (add-Spans w.start w.end e s (ground arith) (ground arith) h)
  | inr t ↦ rw t h
]

cut_points-Spans :
    (rs : List LaneReservation) (d : Weekday) (w : TimeRange) (s : List Time)
    → Spans w.start w.end s
    → Spans w.start w.end (cut_points rs d w s)
unfolding cut_points
cut_points-Spans [] d w s h = h
cut_points-Spans (r ∷ rs) d w s h = elim (Bool-cases (on_weekday d r.weekdays)) [
  | inl t ↦ rw t (
      cut_points-Spans rs d w _ (add_edge-Spans w r.time.end _ (add_edge-Spans w r.time.start s h)))
  | inr t ↦ rw t (cut_points-Spans rs d w s h)
]

session_bounds-Spans :
    (plan : LanePlan) (d : Weekday) (w : TimeRange)
    → w.start < w.end
    → Spans w.start w.end (session_bounds plan d w)
unfolding session_bounds
session_bounds-Spans plan d w h = cut_points-Spans plan.reservations d w _ (ground arith)

add_edge-keeps :
    (w : TimeRange) (e x : Time) (s : List Time) → has s x ≡ true → has (add_edge w e s) x ≡ true
unfolding add_edge
add_edge-keeps w e x s h = elim (Bool-cases (ltb w.start e && ltb e w.end)) [
  | inl t ↦ rw (t, contains-add e s x, h) (ground arith)
  | inr t ↦ rw t h
]

add_edge-adds :
    (w : TimeRange) (e : Time) (s : List Time)
    → w.start < e
    → e < w.end
    → has (add_edge w e s) e ≡ true
unfolding add_edge
add_edge-adds w e s p q =
    rw (lt→ltb w.start e p, lt→ltb e w.end q, contains-add e s e) (ground arith)

cut_points-keeps :
    (rs : List LaneReservation) (d : Weekday) (w : TimeRange) (s : List Time) (x : Time)
    → has s x ≡ true
    → has (cut_points rs d w s) x ≡ true
unfolding cut_points
cut_points-keeps [] d w s x h = h
cut_points-keeps (r ∷ rs) d w s x h = elim (Bool-cases (on_weekday d r.weekdays)) [
  | inl t ↦ rw t (
      cut_points-keeps rs d w _ x
        (add_edge-keeps w r.time.end x _ (add_edge-keeps w r.time.start x s h)))
  | inr t ↦ rw t (cut_points-keeps rs d w s x h)
]

-- Inside the session, both edges of each reservation of the weekday are cut points.
cut_points-edges :
    (rs : List LaneReservation) (d : Weekday) (w : TimeRange) (s : List Time) (r : LaneReservation)
    (e : Time)
    → In r rs
    → on_weekday d r.weekdays ≡ true
    → (e ≡ r.time.start) ⊎ (e ≡ r.time.end)
    → w.start < e
    → e < w.end
    → has (cut_points rs d w s) e ≡ true
unfolding cut_points
cut_points-edges [] d w s r e m on edge p q = absurd m
cut_points-edges (r' ∷ rs) d w s r e (inl same) on (inl edge) p q =
    rw (sym same, on)
      (cut_points-keeps rs d w _ e (
        add_edge-keeps w r.time.end e _
          (rw edge (add_edge-adds w r.time.start s (omega arith) (omega arith)))))
cut_points-edges (r' ∷ rs) d w s r e (inl same) on (inr edge) p q =
    rw (sym same, on)
      (cut_points-keeps rs d w _ e
        (rw edge (add_edge-adds w r.time.end _ (omega arith) (omega arith))))
cut_points-edges (r' ∷ rs) d w s r e (inr m) on edge p q =
    elim (Bool-cases (on_weekday d r'.weekdays)) [
      | inl t ↦ rw t (cut_points-edges rs d w _ r e m on edge p q)
      | inr t ↦ rw t (cut_points-edges rs d w s r e m on edge p q)
    ]

-- Elements of such a list, and the gaps between neighbours.
Spans-low : (lo hi e : Time) (s : List Time) → Spans lo hi s → has s e ≡ true → lo ≤ e
unfolding has
Spans-low lo hi e [] h m = absurd h
Spans-low lo hi e (x ∷ []) h m = ground arith
Spans-low lo hi e (x ∷ y ∷ ys) h m = ground (arith, Spans-low y hi e (y ∷ ys) h.2)

Spans-le : (lo hi : Time) (s : List Time) → Spans lo hi s → lo ≤ hi
Spans-le lo hi [] h = absurd h
Spans-le lo hi (x ∷ []) h = omega arith
Spans-le lo hi (x ∷ y ∷ ys) h = omega (arith, Spans-le y hi (y ∷ ys) h.2)

pairwise-low :
    (lo hi : Time) (s : List Time) (r : TimeRange)
    → Spans lo hi s
    → In r (pairwise s)
    → (lo ≤ r.start) × (r.start < r.end) × (r.end ≤ hi)
unfolding pairwise
pairwise-low lo hi [] r h m = absurd h
pairwise-low lo hi (x ∷ []) r h m = absurd m
pairwise-low lo hi (x ∷ y ∷ ys) r h (inl e) = ground (arith, Spans-le y hi (y ∷ ys) h.2)
pairwise-low lo hi (x ∷ y ∷ ys) r h (inr m) = omega (arith, pairwise-low y hi (y ∷ ys) r h.2 m)

pairwise-gap :
    (lo hi e : Time) (s : List Time) (r : TimeRange)
    → Spans lo hi s
    → In r (pairwise s)
    → has s e ≡ true
    → (e ≤ r.start) ⊎ (r.end ≤ e)
unfolding pairwise has
pairwise-gap lo hi e [] r h m k = absurd h
pairwise-gap lo hi e (x ∷ []) r h m k = absurd m
pairwise-gap lo hi e (x ∷ y ∷ ys) r h (inl i) k = ground (arith, Spans-low y hi e (y ∷ ys) h.2)
pairwise-gap lo hi e (x ∷ y ∷ ys) r h (inr m) k =
    ground (arith, pairwise-gap y hi e (y ∷ ys) r h.2 m, pairwise-low y hi (y ∷ ys) r h.2 m)

-- A list of ranges that follow one another without gap or overlap, from `lo` to `hi`.
abbrev pub Tiles : Time → Time → List TimeRange → Type 0
Tiles lo hi [] = lo ≡ hi
Tiles lo hi (r ∷ rs) = (r.start ≡ lo) × (time_range r.start r.end ≡ some r) × Tiles r.end hi rs

pairwise-Tiles : (lo hi : Time) (s : List Time) → Spans lo hi s → Tiles lo hi (pairwise s)
unfolding pairwise time_range
pairwise-Tiles lo hi [] h = absurd h
pairwise-Tiles lo hi (x ∷ []) h = omega arith
pairwise-Tiles lo hi (x ∷ y ∷ ys) h = (h.0, ground arith, pairwise-Tiles y hi (y ∷ ys) h.2)

abbrev pub slot_time : LaneSlotAvailability → TimeRange
slot_time s = s.time

slots-time :
    (plan : LanePlan) (d : Weekday) (rs : List TimeRange)
    → map slot_time (map (slot_at plan d) rs) ≡ rs
slots-time plan d [] = refl
slots-time plan d (r ∷ rs) = ap (◌∷◌ r) (slots-time plan d rs)

-- The sub-windows of a session's lane timeline tile the session: the first starts with it, each
-- starts where the one before it ends, the last ends with it, and each is a range that the
-- constructor of TimeRange accepts.
pub lane_availability_timeline-Tiles :
    (plan : LanePlan) (d : Weekday) (within : TimeRange)
    → within.start < within.end
    → Tiles within.start within.end
        (map slot_time (lane_availability_timeline plan d within).segments)
unfolding lane_availability_timeline
lane_availability_timeline-Tiles plan d within h =
    rw (slots-time plan d (pairwise (session_bounds plan d within)))
      (pairwise-Tiles within.start within.end _ (session_bounds-Spans plan d within h))

-- No edge of a reservation of the weekday lies strictly inside a sub-window.
pub segment_edges :
    (plan : LanePlan) (d : Weekday) (within r : TimeRange) (v : LaneReservation) (e : Time)
    → within.start < within.end
    → In r (pairwise (session_bounds plan d within))
    → In v plan.reservations
    → on_weekday d v.weekdays ≡ true
    → (e ≡ v.time.start) ⊎ (e ≡ v.time.end)
    → (e ≤ r.start) ⊎ (r.end ≤ e)
segment_edges plan d within r v e h m listed on edge =
    let spans = session_bounds-Spans plan d within h in
    let (low, _, high) = pairwise-low within.start within.end _ r spans m in
    elim (Bool-cases (ltb within.start e && ltb e within.end)) [
      | inl t ↦ pairwise-gap within.start within.end e _ r spans m (inside t)
      | inr t ↦ ground arith
    ]
  where
    inside :
        (ltb within.start e && ltb e within.end) ≡ true
        → has (session_bounds plan d within) e ≡ true
    inside t =
        unfold session_bounds in
        cut_points-edges plan.reservations d within _ v e listed on edge (ground arith)
          (ground arith)
