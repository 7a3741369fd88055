-- ===== src/Panel/Strips.antt =====
-- `lane_day_view` (src/swimzh/domain/lane_plan.py) against the stored reservations.
use swimming_in_zurich.Base.{
  ℕ, zero, suc, ◌+◌, Bool, true, false, ◌&&◌, &&-true, List, [], ◌∷◌, map, keep, ◌≡◌, refl, ap, sym,
  subst, inl, inr, ◌↔◌, arith, In, In-map, In-map_of, In-keep, In-keep_of,
}
use swimming_in_zurich.Base.Sort.{Ascending, In-sort, In-sort_of, sort-Ascending}
use swimming_in_zurich.Base.FrozenSet.{contains as has}
use swimming_in_zurich.Dates.{pair_le}
use swimming_in_zurich.Schedule.{Weekday, on_weekday}
use swimming_in_zurich.Models.{LanePlan, LaneReservation}
use swimming_in_zurich.Panel.{
  LaneSegment, LaneStrip, segment_le, segment_of, strip_of, strips_from, lane_day_view,
}

-- The reservation that a segment of a lane's strip shows.
abbrev pub Holds : LanePlan → Weekday → ℕ → LaneSegment → Type 0
Holds plan weekday lane s =
    (r : LaneReservation) × In r plan.reservations
    × (on_weekday weekday r.weekdays ≡ true)
    × (has r.lanes lane ≡ true)
    × (s ≡ segment_of r)

segment_le-total : (a b : LaneSegment) → segment_le a b ≡ false → segment_le b a ≡ true
segment_le-total a b h = unfold pair_le in ground arith

segment_le_trans :
    (a b c : LaneSegment) → segment_le a b ≡ true → segment_le b c ≡ true → segment_le a c ≡ true
segment_le_trans a b c h k = unfold pair_le in ground arith

-- A strip is ordered by time and shows exactly the reservations of its lane.
abbrev pub IsStrip : LanePlan → Weekday → LaneStrip → Type 0
IsStrip plan weekday s =
    Ascending segment_le s.segments
    × ((x : LaneSegment) → In x s.segments ↔ Holds plan weekday s.lane x)

strip_of-IsStrip :
    (plan : LanePlan) (weekday : Weekday) (lane : ℕ)
    → IsStrip plan weekday (strip_of plan weekday lane)
unfolding strip_of
strip_of-IsStrip plan weekday lane = (
  sort-Ascending segment_le segment_le-total segment_le_trans (map segment_of active),
  λ x. (
    λ m.
        let (r, listed, e) =
          In-map segment_of x active (In-sort segment_le x (map segment_of active) m) in
        let (stored, k) = In-keep holds r plan.reservations listed in
        let (on, has_lane) = &&-true (on_weekday weekday r.weekdays) (has r.lanes lane) k in
        (r, stored, on, has_lane, e),
    λ h.
        let (r, stored, on, has_lane, e) = h in
        rw e (
          In-sort_of segment_le (segment_of r) (map segment_of active) (
            In-map_of segment_of r active
              (In-keep_of holds r plan.reservations stored (rw (on, has_lane) refl)))),
  ),
)
  where
    holds : LaneReservation → Bool
    holds r = on_weekday weekday r.weekdays && has r.lanes lane

    active : List LaneReservation
    active = keep holds plan.reservations

-- `range(first, first + count)`
abbrev pub lanes_from : (first count : ℕ) → List ℕ
lanes_from first zero = []
lanes_from first (suc count) = first ∷ lanes_from (first + 1) count

strips_from-numbered :
    (plan : LanePlan) (weekday : Weekday) (first count : ℕ)
    → map (λ (s : LaneStrip). s.lane) (strips_from plan weekday first count)
      ≡ lanes_from first count
unfolding strips_from strip_of
strips_from-numbered plan weekday first zero = refl
strips_from-numbered plan weekday first (suc count) =
    ap (λ rest. first ∷ rest) (strips_from-numbered plan weekday (first + 1) count)

strips_from-IsStrip :
    (plan : LanePlan) (weekday : Weekday) (first count : ℕ) (s : LaneStrip)
    → In s (strips_from plan weekday first count)
    → IsStrip plan weekday s
unfolding strips_from
strips_from-IsStrip plan weekday first zero s m = absurd m
strips_from-IsStrip plan weekday first (suc count) s (inl e) =
    subst (λ (x : LaneStrip). IsStrip plan weekday x) (sym e) (strip_of-IsStrip plan weekday first)
strips_from-IsStrip plan weekday first (suc count) s (inr m) =
    strips_from-IsStrip plan weekday (first + 1) count s m

-- The day view of a plan has one strip for each of the lanes from 1 to the lane count, in this
-- order; and each strip lists, ascending by start and then by end, exactly the reservations of the
-- weekday that hold its lane, so that no hold is lost, invented or moved to another lane.
pub lane_day_view-IsStrip :
    (plan : LanePlan) (weekday : Weekday)
    → (map (λ (s : LaneStrip). s.lane) (lane_day_view plan weekday).strips
        ≡ lanes_from 1 plan.lane_count)
      × ((s : LaneStrip) → In s (lane_day_view plan weekday).strips → IsStrip plan weekday s)
unfolding lane_day_view
lane_day_view-IsStrip plan weekday = (
  strips_from-numbered plan weekday 1 plan.lane_count,
  λ s m. strips_from-IsStrip plan weekday 1 plan.lane_count s m,
)
