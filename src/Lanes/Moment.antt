-- ===== src/Lanes/Moment.antt =====
-- `lane_availability_at` (src/swimzh/domain/lane_plan.py) between two moments with no edge between.
use swimming_in_zurich.Base.{
  ◌≤◌, ◌<◌, true, false, ◌&&◌, leb, List, [], ◌∷◌, max, ◌≡◌, refl, sym, ap, ◌⊎◌, inl, inr, arith,
  In, In-map, In-map_of, In-keep, In-keep_of, keep, All, All-of_In, keep-cong, find_first-cong,
  Bool-cases, &&-true,
}
use swimming_in_zurich.Base.Sort.{sort, In-sort}
use swimming_in_zurich.Dates.{Time}
use swimming_in_zurich.Access.{is_public}
use swimming_in_zurich.Schedule.{Weekday, TimeRange, span, contains, on_weekday}
use swimming_in_zurich.Models.{LanePlan, LaneReservation}
use swimming_in_zurich.Lanes.{
  lane_availability_at, active_reservations, range_le, public_ranges, merge_from, merge_ranges,
  end_of, public_run_end, split_at, slot_at, lane_availability_timeline, LaneSlotAvailability,
}
use swimming_in_zurich.Lanes.Timeline.{segment_edges}

-- `e` is not strictly inside `lo` to `hi`.
abbrev pub Outside : Time → Time → Time → Type 0
Outside lo hi e = (e ≤ lo) ⊎ (hi ≤ e)

contains-steady :
    (lo hi t : Time) (r : TimeRange)
    → lo ≤ t
    → t < hi
    → Outside lo hi r.start
    → Outside lo hi r.end
    → contains r t ≡ contains r lo
unfolding contains
contains-steady lo hi t r p q a b = ground arith

module _ (P : Time → Type 0) where
  max-holds : (a b : Time) → P a → P b → P (max a b)
  max-holds a b p q = elim (Bool-cases (leb a b)) [
    | inl t ↦ rw (max-eq_right t) q
    | inr t ↦ rw (max-eq_left t) p
  ]
    where
      max-eq_right : leb a b ≡ true → max a b ≡ b
      max-eq_right t = ground arith

      max-eq_left : leb a b ≡ false → max a b ≡ a
      max-eq_left t = ground arith

  -- The ends of a merged run are ends of the ranges that it is merged from.
  merge_from-edges :
      (s e : Time) (rs : List TimeRange) (run : TimeRange)
      → P s
      → P e
      → All (λ r. P r.start × P r.end) rs
      → In run (merge_from s e rs)
      → P run.start × P run.end
  unfolding merge_from
  merge_from-edges s e [] run p q h (inl i) = rw i (p, q)
  merge_from-edges s e [] run p q h (inr m) = absurd m
  merge_from-edges s e (r ∷ rs) run p q h m = elim (Bool-cases (leb r.start e)) [
    | inl t ↦ merge_from-edges s (max e r.end) rs run p (max-holds e r.end q h.0.1) h.1 (rw t at m)
    | inr t ↦ split (merge_from-edges r.start r.end rs run h.0.0 h.0.1 h.1) (rw t at m)
  ]
    where
      split :
          (In run (merge_from r.start r.end rs) → P run.start × P run.end)
          → In run (span s e ∷ merge_from r.start r.end rs)
          → P run.start × P run.end
      split later (inl i) = rw i (p, q)
      split later (inr k) = later k

  merge_ranges-edges :
      (rs : List TimeRange) (run : TimeRange)
      → All (λ r. P r.start × P r.end) rs
      → In run (merge_ranges rs)
      → P run.start × P run.end
  unfolding merge_ranges
  merge_ranges-edges [] run h m = absurd m
  merge_ranges-edges (r ∷ rs) run h m = merge_from-edges r.start r.end rs run h.0.0 h.0.1 h.1 m

-- A public range is the time of a reservation of the weekday.
pub In-public_ranges :
    (rs : List LaneReservation) (d : Weekday) (r : TimeRange)
    → In r (public_ranges rs d)
    → (v : LaneReservation) × In v rs
      × (on_weekday d v.weekdays ≡ true)
      × (is_public v.access ≡ true)
      × (r ≡ v.time)
unfolding public_ranges
In-public_ranges rs d r m =
    let (v, kept, e) =
      In-map (λ v. v.time) r (keep (λ v. on_weekday d v.weekdays && is_public v.access) rs) m in
    let (listed, ok) = In-keep (λ v. on_weekday d v.weekdays && is_public v.access) v rs kept in
    let (on, shown) = &&-true (on_weekday d v.weekdays) (is_public v.access) ok in
    (v, listed, on, shown, e)

pub In-public_ranges_of :
    (rs : List LaneReservation) (d : Weekday) (v : LaneReservation)
    → In v rs
    → on_weekday d v.weekdays ≡ true
    → is_public v.access ≡ true
    → In v.time (public_ranges rs d)
unfolding public_ranges
In-public_ranges_of rs d v m on shown =
    In-map_of (λ v. v.time) v _
      (In-keep_of (λ v. on_weekday d v.weekdays && is_public v.access) v rs m (rw (on, shown)))

-- What holds of the edges of the weekday's reservations holds of the public ranges.
public_ranges-edges :
    (P : Time → Type 0) (rs : List LaneReservation) (d : Weekday)
    → ((v : LaneReservation)
        → In v rs
        → on_weekday d v.weekdays ≡ true
        → P v.time.start × P v.time.end)
    → All (λ r. P r.start × P r.end) (sort range_le (public_ranges rs d))
public_ranges-edges P rs d h =
    All-of_In (λ r. P r.start × P r.end) _
      λ r m.
        let (v, listed, on, _, e) =
          In-public_ranges rs d r (In-sort range_le r (public_ranges rs d) m) in
        rw e (h v listed on)

module _ (plan : LanePlan) (d : Weekday) (lo hi t : Time) (p : lo ≤ t) (q : t < hi)
    (steady : (v : LaneReservation)
      → In v plan.reservations
      → on_weekday d v.weekdays ≡ true
      → Outside lo hi v.time.start × Outside lo hi v.time.end) where
  active_reservations-steady : active_reservations plan d t ≡ active_reservations plan d lo
  unfolding active_reservations
  active_reservations-steady = keep-cong _ _ plan.reservations same
    where
      same :
          (v : LaneReservation)
          → In v plan.reservations
          → (on_weekday d v.weekdays && contains v.time t)
            ≡ (on_weekday d v.weekdays && contains v.time lo)
      same v m = elim (Bool-cases (on_weekday d v.weekdays)) [
        | inl on ↦ let (a, b) = steady v m on in rw on (contains-steady lo hi t v.time p q a b)
        | inr off ↦ rw off
      ]

  public_run_end-steady : public_run_end plan d t ≡ public_run_end plan d lo
  unfolding public_run_end
  public_run_end-steady = ap end_of (find_first-cong _ _ _ same)
    where
      same :
          (run : TimeRange)
          → In run (merge_ranges (sort range_le (public_ranges plan.reservations d)))
          → contains run t ≡ contains run lo
      same run m =
          let (a, b) =
            merge_ranges-edges (Outside lo hi) _ run
              (public_ranges-edges (Outside lo hi) plan.reservations d steady) m in
          contains-steady lo hi t run p q a b

  lane_availability_at-steady : lane_availability_at plan d t ≡ lane_availability_at plan d lo
  unfolding lane_availability_at split_at
  lane_availability_at-steady = rw (active_reservations-steady, public_run_end-steady)

-- The lane split of a sub-window is the one that holds at every moment of the sub-window: counts,
-- owners, end of the public run and honesty flag are all those of its start.
pub lane_availability_timeline-steady :
    (plan : LanePlan) (d : Weekday) (within : TimeRange) (s : LaneSlotAvailability) (t : Time)
    → within.start < within.end
    → In s (lane_availability_timeline plan d within).segments
    → s.time.start ≤ t
    → t < s.time.end
    → s.availability ≡ lane_availability_at plan d t
unfolding lane_availability_timeline
lane_availability_timeline-steady plan d within s t h m p q =
    let (r, listed, e) = In-map (slot_at plan d) s _ m in
    rw e (
      sym (
        lane_availability_at-steady plan d r.start r.end t (rw e at p) (rw e at q) (λ v found on. (
          segment_edges plan d within r v v.time.start h listed found on (inl refl),
          segment_edges plan d within r v v.time.end h listed found on (inr refl),
        ))))
