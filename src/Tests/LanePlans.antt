-- ===== src/Tests/LanePlans.antt =====
-- The theorems of Lanes at a concrete plan.
use swimming_in_zurich.Base.{false, none, some, [], ◌∷◌, map, ◌≡◌, refl, ◌↔◌, inl, inr, arith, In}
use swimming_in_zurich.Dates.{Time, clock}
use swimming_in_zurich.Access.{club_reserved}
use swimming_in_zurich.Schedule.{tuesday, span}
use swimming_in_zurich.Lanes.{
  lane_availability_at, lane_availability_timeline, LaneAvailability, LaneSlotAvailability,
  public_run_end, split_at, split_lanes, active_reservations, public_ranges, merge_ranges, min_lane,
  add_owner, slot_at,
}
use swimming_in_zurich.Lanes.Timeline.{Tiles, slot_time, lane_availability_timeline-Tiles}
use swimming_in_zurich.Lanes.Moment.{lane_availability_timeline-steady}
use swimming_in_zurich.Lanes.Runs.{PublicAt, EndsPublic, public_run_end-EndsPublic}
use swimming_in_zurich.Tests.Data.{plan, day_long}

program : Unit {0}
unfolding lane_availability_at split_at split_lanes active_reservations public_run_end public_ranges
    merge_ranges min_lane add_owner lane_availability_timeline
program = tt

-- At 18:30 two of the four lanes are the club's, and the public time ends at 21:00.
abbrev evening : LaneAvailability
evening = record {
  lane_count = 4;
  public_lanes = 2;
  reserved_lanes = 2;
  owners = club_reserved "ASVZ" ∷ [];
  public_until = some (clock 21 0);
  partial = false;
}

lane_availability_timeline-Tiles_example :
    Tiles
      (clock 9 0)
      (clock 22 0)
      (map slot_time (lane_availability_timeline plan tuesday day_long).segments)
lane_availability_timeline-Tiles_example =
    lane_availability_timeline-Tiles plan tuesday day_long (omega arith)

abbrev evening_slot : LaneSlotAvailability
evening_slot = slot_at plan tuesday (span (clock 18 0) (clock 21 0))

evening_listed : In evening_slot (lane_availability_timeline plan tuesday day_long).segments
unfolding lane_availability_timeline
evening_listed = inr (inl refl)

lane_availability_timeline-steady_example :
    evening_slot.availability ≡ lane_availability_at plan tuesday (clock 18 30)
lane_availability_timeline-steady_example =
    lane_availability_timeline-steady plan tuesday day_long evening_slot (clock 18 30) (omega arith)
      evening_listed (omega arith) (omega arith)

public_run_end-EndsPublic_example :
    ((e : Time)
      → (public_run_end plan tuesday (clock 7 0) ≡ some e) ↔ EndsPublic plan tuesday (clock 7 0) e)
    × ((public_run_end plan tuesday (clock 7 0) ≡ none) ↔ (¬ PublicAt plan tuesday (clock 7 0)))
public_run_end-EndsPublic_example = public_run_end-EndsPublic plan tuesday (omega arith) (clock 7 0)
