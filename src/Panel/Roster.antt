-- ===== src/Panel/Roster.antt =====
-- `club_roster` (src/swimzh/domain/lane_plan.py) against the stored reservations.
use swimming_in_zurich.Base.{
  ℕ, ltb, if◌then◌else◌, Bool, true, false, String, List, [], ◌∷◌, ◌++◌, map, ◌≡◌, refl, sym, subst,
  ◌∙◌, inl, inr, ◌↔◌, arith, In, In-map, In-map_of, In-keep, In-keep_of, In-append, In-append_left,
  In-append_right, Bool-cases,
}
use swimming_in_zurich.Base.Sort.{Ascending, In-sort, In-sort_of, sort-Ascending}
use swimming_in_zurich.Base.FrozenSet.{
  contains as has, IsCanonical, union-IsCanonical, contains-union, IsCanonical-ext,
}
use swimming_in_zurich.Text.{str_lt}
use swimming_in_zurich.Text.Order.{str_lt-asym, str_lt-cotrans}
use swimming_in_zurich.Access.{is_public}
use swimming_in_zurich.Schedule.{
  Weekday, monday, tuesday, wednesday, thursday, friday, saturday, sunday, on_weekday,
  weekday_value,
}
use swimming_in_zurich.Models.{LanePlan, LaneReservation}
use swimming_in_zurich.Panel.{
  ClubSlot, owner_label, week, sorted_weekdays, sorted_lanes, club_slots, all_slots, club_roster,
  slot_le, lanes_le,
}

pub every_weekday : (w : Weekday) → In w week
every_weekday monday = inl refl
every_weekday tuesday = inr (inl refl)
every_weekday wednesday = inr (inr (inl refl))
every_weekday thursday = inr (inr (inr (inl refl)))
every_weekday friday = inr (inr (inr (inr (inl refl))))
every_weekday saturday = inr (inr (inr (inr (inr (inl refl)))))
every_weekday sunday = inr (inr (inr (inr (inr (inr (inl refl))))))

pub In-sorted_weekdays :
    (w : Weekday) (ws : List Weekday) → In w (sorted_weekdays ws) ↔ (on_weekday w ws ≡ true)
unfolding sorted_weekdays
In-sorted_weekdays w ws = (
  λ m. (In-keep (λ v. on_weekday v ws) w week m).1,
  λ h. In-keep_of (λ v. on_weekday v ws) w week (every_weekday w) h,
)

-- The row that a reservation puts on a weekday: whose it is, when, and its lanes in order.
pub record IsRow (r : LaneReservation) (slot : ClubSlot) : Type 0 where
  pub standing : (is_public r.access ≡ false) × (on_weekday slot.weekday r.weekdays ≡ true)
  pub whose : slot.club ≡ owner_label r.access
  pub when : slot.time ≡ r.time
  pub ascending : IsCanonical slot.lanes
  pub which : (lane : ℕ) → has slot.lanes lane ≡ has r.lanes lane

-- The slot is the row of a reservation of the plan.
abbrev pub IsListed : List LaneReservation → ClubSlot → Type 0
IsListed rs slot = (r : LaneReservation) × In r rs × IsRow r slot

abbrev row_of : LaneReservation → Weekday → ClubSlot
row_of r w = record {
  club = owner_label r.access;
  weekday = w;
  time = r.time;
  lanes = sorted_lanes r.lanes;
}

row_of-IsRow :
    (r : LaneReservation) (w : Weekday)
    → is_public r.access ≡ false
    → on_weekday w r.weekdays ≡ true
    → IsRow r (row_of r w)
unfolding sorted_lanes has
row_of-IsRow r w p on = record {
  standing = (p, on);
  whose = refl;
  when = refl;
  ascending = union-IsCanonical [] r.lanes tt;
  which = λ lane. contains-union [] r.lanes lane;
}

row_of_unique :
    (r : LaneReservation) (slot : ClubSlot) → IsRow r slot → slot ≡ row_of r slot.weekday
unfolding sorted_lanes has
row_of_unique r slot h =
    let same : slot.lanes ≡ sorted_lanes r.lanes =
      IsCanonical-ext slot.lanes (sorted_lanes r.lanes) h.ascending
        (union-IsCanonical [] r.lanes tt) (λ y. h.which y ∙ sym (contains-union [] r.lanes y)) in
    cc (h.whose, h.when, same)

club_slots-IsRow : (r : LaneReservation) (slot : ClubSlot) → In slot (club_slots r) ↔ IsRow r slot
unfolding club_slots
club_slots-IsRow r slot = elim (Bool-cases (is_public r.access)) [
  | inl p ↦ rw p ((λ m. absurd m), (λ h. absurd (cc (h.standing.0, p))))
  | inr p ↦ rw p (
    (λ m.
        let (w, listed, e) = In-map (row_of r) slot (sorted_weekdays r.weekdays) m in
        subst (λ (x : ClubSlot). IsRow r x) (sym e)
          (row_of-IsRow r w p ((In-sorted_weekdays w r.weekdays).0 listed))),
    (λ h.
        subst (λ (x : ClubSlot). In x (map (row_of r) (sorted_weekdays r.weekdays)))
          (sym (row_of_unique r slot h))
          (In-map_of (row_of r) slot.weekday (sorted_weekdays r.weekdays)
            ((In-sorted_weekdays slot.weekday r.weekdays).1 h.standing.1))),
  )
]

all_slots-IsListed :
    (rs : List LaneReservation) (slot : ClubSlot) → In slot (all_slots rs) ↔ IsListed rs slot
unfolding all_slots
all_slots-IsListed [] slot = (λ m. absurd m, λ h. absurd h.1)
all_slots-IsListed (r ∷ rs) slot = (
  λ m. elim (In-append slot (club_slots r) (all_slots rs) m) [
    | inl i ↦ (r, inl refl, (club_slots-IsRow r slot).0 i)
    | inr i ↦ let (q, k, row) = (all_slots-IsListed rs slot).0 i in (q, inr k, row)
  ],
  λ h. added h.0 h.1 h.2 (λ q i row. (all_slots-IsListed rs slot).1 (q, i, row)),
)
  where
    added :
        (q : LaneReservation)
        → In q (r ∷ rs)
        → IsRow q slot
        → ((p : LaneReservation) → In p rs → IsRow p slot → In slot (all_slots rs))
        → In slot (club_slots r ++ all_slots rs)
    added q (inl e) row later =
        In-append_left slot (club_slots r) (all_slots rs)
          ((club_slots-IsRow r slot).1 (rw e at row))
    added q (inr i) row later = In-append_right slot (club_slots r) (all_slots rs) (later q i row)

lanes_le-total : (xs ys : List ℕ) → lanes_le xs ys ≡ false → lanes_le ys xs ≡ true
unfolding lanes_le
lanes_le-total [] ys h = absurd (cc h)
lanes_le-total (x ∷ xs) [] h = refl
lanes_le-total (x ∷ xs) (y ∷ ys) h = ground (arith, lanes_le-total xs ys)

lanes_le_trans :
    (xs ys zs : List ℕ) → lanes_le xs ys ≡ true → lanes_le ys zs ≡ true → lanes_le xs zs ≡ true
unfolding lanes_le
lanes_le_trans [] ys zs h k = refl
lanes_le_trans (x ∷ xs) [] zs h k = absurd (cc h)
lanes_le_trans (x ∷ xs) (y ∷ ys) [] h k = absurd (cc k)
lanes_le_trans (x ∷ xs) (y ∷ ys) (z ∷ zs) h k = ground (arith, lanes_le_trans xs ys zs)

slot_le-total : (a b : ClubSlot) → slot_le a b ≡ false → slot_le b a ≡ true
unfolding slot_le
slot_le-total a b h = ground (arith, str_lt-asym a.club b.club, lanes_le-total a.lanes b.lanes)

-- One key of a lexicographic order, in front of the test on the keys after it.
abbrev on_number : ℕ → ℕ → Bool → Bool
on_number x y rest = if ltb x y then true else if ltb y x then false else rest

abbrev on_name : String → String → Bool → Bool
on_name s t rest = if str_lt s t then true else if str_lt t s then false else rest

on_number_trans :
    (x y z : ℕ) (p q r : Bool)
    → (p ≡ true → q ≡ true → r ≡ true)
    → on_number x y p ≡ true
    → on_number y z q ≡ true
    → on_number x z r ≡ true
on_number_trans x y z p q r rest h k = ground (arith, rest)

on_name_trans :
    (s t u : String) (p q r : Bool)
    → (p ≡ true → q ≡ true → r ≡ true)
    → on_name s t p ≡ true
    → on_name t u q ≡ true
    → on_name s u r ≡ true
on_name_trans s t u p q r rest h k = ground (
  arith,
  rest,
  str_lt-cotrans s t u,
  str_lt-cotrans u t s,
  str_lt-cotrans t u s,
  str_lt-cotrans t s u,
  str_lt-cotrans s u t,
  str_lt-cotrans u s t,
  str_lt-asym s t,
  str_lt-asym t u,
  str_lt-asym s u,
)

slot_le_trans : (a b c : ClubSlot) → slot_le a b ≡ true → slot_le b c ≡ true → slot_le a c ≡ true
unfolding slot_le
slot_le_trans a b c = on_name_trans a.club b.club c.club _ _ _ (
    on_number_trans (weekday_value a.weekday) (weekday_value b.weekday) (weekday_value c.weekday) _
      _ _
      (on_number_trans a.time.start b.time.start c.time.start _ _ _ (
        on_number_trans a.time.end b.time.end c.time.end _ _ _
          (lanes_le_trans a.lanes b.lanes c.lanes))))

-- The roster of a plan has exactly the rows that its reservations which are not public put on their
-- weekdays, each with the label of the owner, the time, and the lanes in ascending order; and the
-- rows ascend by owner, then weekday, start, end and lanes, so that the rows of one owner stand
-- together.
pub club_roster-IsListed :
    (plan : LanePlan)
    → ((slot : ClubSlot) → In slot (club_roster plan) ↔ IsListed plan.reservations slot)
      × Ascending slot_le (club_roster plan)
unfolding club_roster
club_roster-IsListed plan = (
  λ slot. (
    λ m.
        (all_slots-IsListed plan.reservations slot).0
          (In-sort slot_le slot (all_slots plan.reservations) m),
    λ h.
        In-sort_of slot_le slot (all_slots plan.reservations)
          ((all_slots-IsListed plan.reservations slot).1 h),
  ),
  sort-Ascending slot_le slot_le-total slot_le_trans (all_slots plan.reservations),
)
