-- ===== src/Panel.antt =====
-- src/swimzh/domain/lane_plan.py: the projections of a lane plan for the facility detail: the day of
-- each lane, the roster of the clubs, and the best public window.
pub mod Roster
pub mod Holds
pub mod Best
pub mod Windows
pub mod Cuts
pub mod Strips
use swimming_in_zurich.Base.{
  ℕ, zero, suc, ◌+◌, Bool, true, false, not, ◌&&◌, ◌||◌, ltb, leb, ◌==◌, if◌then◌else◌, Option,
  none, some, List, [], ◌∷◌, ◌++◌, String, keep, any, map, length, nonempty, min, max,
}
use swimming_in_zurich.Base.Sort.{sort}
use swimming_in_zurich.Base.FrozenSet.{FrozenSet, add, union, contains as has}
use swimming_in_zurich.Text.{str_lt, is_empty}
use swimming_in_zurich.Dates.{Time, pair_le}
use swimming_in_zurich.Access.{
  SessionAccess, public_swim, lane_swim, family_time, women_only, seniors_only, school_reserved,
  club_reserved, adults_only, girls_only, gender_diverse, accompanied_children, is_public,
}
use swimming_in_zurich.Schedule.{
  Weekday, monday, tuesday, wednesday, thursday, friday, saturday, sunday, on_weekday,
  weekday_value, TimeRange, span,
}
use swimming_in_zurich.Models.{LanePlan, LaneReservation}
use swimming_in_zurich.Lanes.{range_le, pairwise}

pub record LaneSegment : Type 0 where
  pub time : TimeRange
  pub access : SessionAccess

pub record LaneStrip : Type 0 where
  pub lane : ℕ
  pub segments : List LaneSegment

pub record LaneDayView : Type 0 where
  pub weekday : Weekday
  pub lane_count : ℕ
  pub strips : List LaneStrip

pub record ClubSlot : Type 0 where
  pub club : String
  pub weekday : Weekday
  pub time : TimeRange
  pub lanes : List ℕ

pub record PublicWindow : Type 0 where
  pub time : TimeRange
  pub public_lanes : ℕ

pub record LanePanel : Type 0 where
  pub day_view : LaneDayView
  pub best_public : Option PublicWindow
  pub roster : List ClubSlot

-- `owner_label`; the name of a class is its name in the source.
unfoldable pub owner_label : SessionAccess → String
owner_label (club_reserved club) = if is_empty club then "Club" else club
owner_label school_reserved = "Schools"
owner_label public_swim = "PublicSwim"
owner_label (lane_swim _) = "LaneSwim"
owner_label (family_time _) = "FamilyTime"
owner_label (women_only _) = "WomenOnly"
owner_label (seniors_only _) = "SeniorsOnly"
owner_label (adults_only _ _) = "AdultsOnly"
owner_label girls_only = "GirlsOnly"
owner_label (gender_diverse _) = "GenderDiverse"
owner_label accompanied_children = "AccompaniedChildren"

abbrev pub segment_le : LaneSegment → LaneSegment → Bool
segment_le a b = range_le a.time b.time

abbrev pub segment_of : LaneReservation → LaneSegment
segment_of r = record { time = r.time; access = r.access }

-- One strip of `lane_day_view`: the reservations of the weekday that hold the lane.
unfoldable pub strip_of : LanePlan → Weekday → ℕ → LaneStrip
strip_of plan weekday lane = record {
  lane = lane;
  segments = sort segment_le (
      map segment_of
        (keep (λ r. on_weekday weekday r.weekdays && has r.lanes lane) plan.reservations));
}

-- The strips of `range(first, first + count)`.
unfoldable pub strips_from : LanePlan → Weekday → (first count : ℕ) → List LaneStrip
unfolding strip_of
strips_from plan weekday first zero = []
strips_from plan weekday first (suc count) =
    strip_of plan weekday first ∷ strips_from plan weekday (first + 1) count

unfoldable pub lane_day_view : LanePlan → Weekday → LaneDayView
unfolding strips_from
lane_day_view plan weekday = record {
  weekday = weekday;
  lane_count = plan.lane_count;
  strips = strips_from plan weekday 1 plan.lane_count;
}

abbrev pub week : List Weekday
week = monday ∷ tuesday ∷ wednesday ∷ thursday ∷ friday ∷ saturday ∷ sunday ∷ []

-- `sorted(weekdays)` of a frozenset.
unfoldable pub sorted_weekdays : List Weekday → List Weekday
sorted_weekdays ws = keep (λ w. on_weekday w ws) week

-- `sorted(lanes)` of a frozenset.
unfoldable pub sorted_lanes : List ℕ → List ℕ
sorted_lanes lanes = union [] lanes

-- The rows of one reservation: none of a public one, else one for each of its weekdays.
unfoldable pub club_slots : LaneReservation → List ClubSlot
club_slots r =
    if is_public r.access
    then []
    else map
        (λ w. record {
          club = owner_label r.access;
          weekday = w;
          time = r.time;
          lanes = sorted_lanes r.lanes;
        })
        (sorted_weekdays r.weekdays)

unfoldable pub all_slots : List LaneReservation → List ClubSlot
all_slots [] = []
all_slots (r ∷ rs) = club_slots r ++ all_slots rs

-- `xs <= ys` on tuples of numbers.
unfoldable pub lanes_le : List ℕ → List ℕ → Bool
lanes_le [] ys = true
lanes_le (x ∷ xs) [] = false
lanes_le (x ∷ xs) (y ∷ ys) = ltb x y || (x == y && lanes_le xs ys)

-- The key `(club, weekday, start, end, lanes)`.
unfoldable pub slot_le : ClubSlot → ClubSlot → Bool
slot_le a b =
    if str_lt a.club b.club
    then true
    else if str_lt b.club a.club
    then false
    else if ltb (weekday_value a.weekday) (weekday_value b.weekday)
    then true
    else if ltb (weekday_value b.weekday) (weekday_value a.weekday)
    then false
    else if ltb a.time.start b.time.start
    then true
    else if ltb b.time.start a.time.start
    then false
    else if ltb a.time.end b.time.end
    then true
    else if ltb b.time.end a.time.end
    then false
    else lanes_le a.lanes b.lanes

unfoldable pub club_roster : LanePlan → List ClubSlot
club_roster plan = sort slot_le (all_slots plan.reservations)

-- `_clipped_to`
unfoldable pub clipped_to : TimeRange → Option TimeRange → Option TimeRange
clipped_to r none = some r
clipped_to r (some within) =
    let lo = max r.start within.start in
    let hi = min r.end within.end in if ltb lo hi then some (span lo hi) else none

abbrev pub Hold : Type 0
Hold = TimeRange × FrozenSet

abbrev pub with_lanes : Option TimeRange → List ℕ → List Hold → List Hold
with_lanes none lanes rest = rest
with_lanes (some r) lanes rest = (r, lanes) ∷ rest

-- The first loop of `best_public_time`: the public holds of the weekday, clipped.
unfoldable pub public_holds : List LaneReservation → Weekday → Option TimeRange → List Hold
public_holds [] weekday within = []
public_holds (r ∷ rs) weekday within =
    let rest = public_holds rs weekday within in
    if not (on_weekday weekday r.weekdays) || not (is_public r.access)
    then rest
    else with_lanes (clipped_to r.time within) r.lanes rest

-- The bounds of the holds, as a set.
unfoldable pub hold_bounds : List Hold → FrozenSet
hold_bounds [] = []
hold_bounds ((r, _) ∷ hs) = add r.start (add r.end (hold_bounds hs))

-- The lanes that are public throughout a cut.
unfoldable pub lanes_in : List Hold → TimeRange → FrozenSet
lanes_in [] cut = []
lanes_in ((r, lanes) ∷ hs) cut =
    let rest = lanes_in hs cut in
    if leb r.start cut.start && leb cut.end r.end then union rest lanes else rest

abbrev pub window : TimeRange → ℕ → PublicWindow
window r count = record { time = r; public_lanes = count }

-- The second loop, with the last window apart; the windows before it are those returned.
unfoldable pub windows_from : PublicWindow → List Hold → List TimeRange → List PublicWindow
windows_from last holds [] = last ∷ []
windows_from last holds (cut ∷ cuts) =
    let count = length (lanes_in holds cut) in
    let skipped = windows_from last holds cuts in
    let merged = windows_from (window (span last.time.start cut.end) count) holds cuts in
    let appended = last ∷ windows_from (window cut count) holds cuts in
    if count == 0
    then skipped
    else if last.public_lanes == count && last.time.end == cut.start
    then merged
    else appended

-- The second loop before the first window.
unfoldable pub windows : List Hold → List TimeRange → List PublicWindow
windows holds [] = []
windows holds (cut ∷ cuts) =
    let count = length (lanes_in holds cut) in
    let skipped = windows holds cuts in
    let started = windows_from (window cut count) holds cuts in
    if count == 0 then skipped else started

-- `max(windows, key=public_lanes)`: the first of the greatest.
unfoldable pub best_of : PublicWindow → List PublicWindow → PublicWindow
best_of best [] = best
best_of best (w ∷ ws) = best_of (if ltb best.public_lanes w.public_lanes then w else best) ws

unfoldable pub first_best : List PublicWindow → Option PublicWindow
first_best [] = none
first_best (w ∷ ws) = some (best_of w ws)

unfoldable pub best_public_time : LanePlan → Weekday → Option TimeRange → Option PublicWindow
best_public_time plan weekday within =
    let holds = public_holds plan.reservations weekday within in
    first_best (windows holds (pairwise (hold_bounds holds)))

unfoldable pub lane_panel : LanePlan → Weekday → LanePanel
lane_panel plan weekday = record {
  day_view = lane_day_view plan weekday;
  best_public = best_public_time plan weekday none;
  roster = club_roster plan;
}
