-- ===== src/Tests/Details.antt =====
-- The theorems of Pricing and Panel at a concrete tariff and plan.
use swimming_in_zurich.Base.{ℕ, true, false, none, some, [], ◌∷◌, map, ◌≡◌, refl, ◌↔◌, ◌⊎◌, In}
use swimming_in_zurich.Base.Sort.{Ascending}
use swimming_in_zurich.Base.FrozenSet.{add, union}
use swimming_in_zurich.Access.{is_public}
use swimming_in_zurich.Lanes.{pairwise}
use swimming_in_zurich.Dates.{Time, clock}
use swimming_in_zurich.Schedule.{tuesday, span, on_weekday}
use swimming_in_zurich.Errors.{Decimal}
use swimming_in_zurich.Models.{PriceCategory, PriceEntry, PriceTable}
use swimming_in_zurich.Pricing.{entry_for}
use swimming_in_zurich.Pricing.Choice.{Applies, Dearest, entry_for-Dearest}
use swimming_in_zurich.Panel.{
  LaneStrip, ClubSlot, PublicWindow, lane_day_view, club_roster, slot_le, best_public_time,
  public_holds, clipped_to, hold_bounds, lanes_in, windows, windows_from, first_best, best_of,
}
use swimming_in_zurich.Panel.Best.{IsBest, public_at, best_public_time-IsBest}
use swimming_in_zurich.Panel.Holds.{inside}
use swimming_in_zurich.Panel.Strips.{IsStrip, lanes_from, lane_day_view-IsStrip}
use swimming_in_zurich.Panel.Roster.{IsListed, club_roster-IsListed}
use swimming_in_zurich.Tests.Data.{plan, day_long}

abbrev francs : ℕ → Decimal
francs n = record { negative = false; digits = n; places = 0 }

abbrev priced : PriceCategory → ℕ → ℕ → PriceEntry
priced category amount bound = record {
  category = category;
  amount_chf = francs amount;
  display = "";
  min_age = some bound;
}

-- The tariff of the indoor pools: from 6, from 16 and from 20 years on.
abbrev tariff : PriceTable
tariff = record {
  entries =
      priced PriceCategory.adult 8 20
      ∷ priced PriceCategory.youth 6 16
      ∷ priced PriceCategory.child 4 6
      ∷ [];
  valid_as_of = none;
  source_url = none;
}

youth_fare : entry_for tariff (some 17) ≡ some (priced PriceCategory.youth 6 16)
unfolding entry_for
youth_fare = refl

toddler_fare : entry_for tariff (some 3) ≡ none
unfolding entry_for
toddler_fare = refl

entry_for-Dearest_example :
    ((e : PriceEntry) × (entry_for tariff (some 17) ≡ some e) × Dearest (some 17) tariff.entries e)
    ⊎ ((entry_for tariff (some 17) ≡ none)
        × ((e : PriceEntry) (bound : ℕ) → ¬ Applies (some 17) tariff.entries e bound))
entry_for-Dearest_example = entry_for-Dearest tariff (some 17)

lane_day_view-IsStrip_example :
    (map (λ (s : LaneStrip). s.lane) (lane_day_view plan tuesday).strips ≡ lanes_from 1 4)
    × ((s : LaneStrip) → In s (lane_day_view plan tuesday).strips → IsStrip plan tuesday s)
lane_day_view-IsStrip_example = lane_day_view-IsStrip plan tuesday

club_roster-IsListed_example :
    ((slot : ClubSlot) → In slot (club_roster plan) ↔ IsListed plan.reservations slot)
    × Ascending slot_le (club_roster plan)
club_roster-IsListed_example = club_roster-IsListed plan

best_public_time-IsBest_example :
    ((w : PublicWindow) × (best_public_time plan tuesday (some day_long) ≡ some w)
      × IsBest plan tuesday (some day_long) w)
    ⊎ ((best_public_time plan tuesday (some day_long) ≡ none)
        × ((t : Time) → inside (some day_long) t ≡ true → public_at plan tuesday t ≡ 0))
best_public_time-IsBest_example = best_public_time-IsBest plan tuesday (some day_long)

-- Before the club comes, all four lanes are public.
best_run :
    best_public_time plan tuesday (some day_long)
    ≡ some (record { time = span (clock 9 0) (clock 18 0); public_lanes = 4 })
unfolding best_public_time public_holds clipped_to hold_bounds lanes_in windows windows_from
    first_best best_of pairwise on_weekday is_public add union
best_run = refl
