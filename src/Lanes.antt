-- ===== src/Lanes.antt =====
-- src/swimzh/domain/lane_plan.py: what a stored lane plan says of a moment, a session, a day. The
-- plan itself is in Models. A TimeRange that this code builds is written `span lo hi`. A set is a
-- FrozenSet, so `sorted` of one is the list itself.
pub mod Moment
pub mod Timeline
pub mod Merge
pub mod Runs
use swimming_in_zurich.Base.{
  ℕ, zero, suc, ◌+◌, Bool, true, false, not, ◌&&◌, ◌||◌, ltb, leb, ◌==◌, if◌then◌else◌, Option,
  none, some, List, [], ◌∷◌, ◌++◌, String, keep, any, map, find_first, length, nonempty, min, max,
}
use swimming_in_zurich.Base.Sort.{sort}
use swimming_in_zurich.Base.FrozenSet.{FrozenSet, add, union, contains as has}
use swimming_in_zurich.Text.{str_le, is_empty}
use swimming_in_zurich.Dates.{Time, pair_le}
use swimming_in_zurich.Access.{
  SessionAccess, public_swim, lane_swim, family_time, women_only, seniors_only, school_reserved,
  club_reserved, adults_only, girls_only, gender_diverse, accompanied_children, access_eq,
  is_public,
}
use swimming_in_zurich.Schedule.{
  Weekday, monday, tuesday, wednesday, thursday, friday, saturday, sunday, on_weekday,
  weekday_value, TimeRange, span, contains,
}
use swimming_in_zurich.Models.{LanePlan, LaneReservation}

pub record LaneAvailability : Type 0 where
  pub lane_count : ℕ
  pub public_lanes : ℕ
  pub reserved_lanes : ℕ
  pub owners : List SessionAccess
  pub public_until : Option Time
  pub partial : Bool

-- `_active_reservations`
unfoldable pub active_reservations : LanePlan → Weekday → Time → List LaneReservation
active_reservations plan weekday t =
    keep (λ r. on_weekday weekday r.weekdays && contains r.time t) plan.reservations

-- The key `(tr.start, tr.end)`.
abbrev pub range_le : TimeRange → TimeRange → Bool
range_le a b = pair_le a.start a.end b.start b.end

-- The generator of `_public_run_end`: the public blocks of a weekday.
unfoldable pub public_ranges : List LaneReservation → Weekday → List TimeRange
public_ranges rs weekday =
    map (λ r. r.time) (keep (λ r. on_weekday weekday r.weekdays && is_public r.access) rs)

-- The merging loop, with the last run of `merged` as `start` and `end`; the runs in front of it are
-- the ones already returned.
unfoldable pub merge_from : Time → Time → List TimeRange → List TimeRange
merge_from start end [] = span start end ∷ []
merge_from start end (tr ∷ rest) =
    let longer = merge_from start (max end tr.end) rest in
    let next = span start end ∷ merge_from tr.start tr.end rest in
    if leb tr.start end then longer else next

unfoldable pub merge_ranges : List TimeRange → List TimeRange
unfolding merge_from
merge_ranges [] = []
merge_ranges (tr ∷ rest) = merge_from tr.start tr.end rest

abbrev pub end_of : Option TimeRange → Option Time
end_of none = none
end_of (some r) = some r.end

-- `_public_run_end`
unfoldable pub public_run_end : LanePlan → Weekday → Time → Option Time
public_run_end plan weekday t = end_of (
    find_first (λ run. contains run t)
      (merge_ranges (sort range_le (public_ranges plan.reservations weekday))))

-- `min(lanes) if lanes else 0`
unfoldable pub min_lane : List ℕ → ℕ
min_lane [] = 0
min_lane (x ∷ []) = x
min_lane (x ∷ y ∷ ys) = min x (min_lane (y ∷ ys))

-- `owners.append(access)` unless it is there.
unfoldable pub add_owner : List SessionAccess → SessionAccess → List SessionAccess
unfolding access_eq
add_owner owners access = if any (access_eq access) owners then owners else owners ++ access ∷ []

pub record Split : Type 0 where
  pub public : FrozenSet
  pub reserved : FrozenSet
  pub owners : List SessionAccess

-- The loop of `lane_availability_at`.
unfoldable pub split_lanes : Split → List LaneReservation → Split
split_lanes s [] = s
split_lanes s (r ∷ rs) =
    split_lanes
      (if is_public r.access
        then record s { public = union s.public r.lanes }
        else record s { reserved = union s.reserved r.lanes; owners = add_owner s.owners r.access })
      rs

abbrev pub lower_lane : LaneReservation → LaneReservation → Bool
lower_lane a b = leb (min_lane a.lanes) (min_lane b.lanes)

abbrev pub no_lanes : Split
no_lanes = record { public = []; reserved = []; owners = [] }

-- The split of the lanes among the active reservations, in the order of their lowest lane.
unfoldable pub split_at : LanePlan → Weekday → Time → Split
split_at plan weekday t =
    split_lanes no_lanes (sort lower_lane (active_reservations plan weekday t))

unfoldable pub lane_availability_at : LanePlan → Weekday → Time → LaneAvailability
lane_availability_at plan weekday t =
    let s = split_at plan weekday t in
    let covered = union s.public s.reserved in
    record {
      lane_count = plan.lane_count;
      public_lanes = length s.public;
      reserved_lanes = length s.reserved;
      owners = s.owners;
      public_until = public_run_end plan weekday t;
      partial = any (λ lane. not (has covered lane)) plan.coverage.unresolved_lanes;
    }

pub record LaneSlotAvailability : Type 0 where
  pub time : TimeRange
  pub availability : LaneAvailability

pub record LaneAvailabilityTimeline : Type 0 where
  pub weekday : Weekday
  pub segments : List LaneSlotAvailability

-- `if within.start < edge < within.end: bounds.add(edge)`
unfoldable pub add_edge : TimeRange → Time → FrozenSet → FrozenSet
unfolding add
add_edge within edge bounds =
    if ltb within.start edge && ltb edge within.end then add edge bounds else bounds

-- The loop over the reservations that collects the cut points.
unfoldable pub cut_points : List LaneReservation → Weekday → TimeRange → FrozenSet → FrozenSet
unfolding add_edge on_weekday
cut_points [] weekday within bounds = bounds
cut_points (r ∷ rs) weekday within bounds = cut_points rs weekday within (
    if on_weekday weekday r.weekdays
    then add_edge within r.time.end (add_edge within r.time.start bounds)
    else bounds)

-- `pairwise(xs)`
unfoldable pub pairwise : List Time → List TimeRange
pairwise [] = []
pairwise (x ∷ []) = []
pairwise (x ∷ y ∷ ys) = span x y ∷ pairwise (y ∷ ys)

abbrev pub slot_at : LanePlan → Weekday → TimeRange → LaneSlotAvailability
slot_at plan weekday r = record {
  time = r;
  availability = lane_availability_at plan weekday r.start;
}

unfoldable pub session_bounds : LanePlan → Weekday → TimeRange → FrozenSet
unfolding cut_points add
session_bounds plan weekday within =
    cut_points plan.reservations weekday within (add within.end (add within.start []))

unfoldable pub lane_availability_timeline :
    LanePlan → Weekday → TimeRange → LaneAvailabilityTimeline
unfolding session_bounds pairwise
lane_availability_timeline plan weekday within = record {
  weekday = weekday;
  segments = map (slot_at plan weekday) (pairwise (session_bounds plan weekday within));
}
