-- ===== src/Panel/Holds.antt =====
-- The public holds of `best_public_time` and the public lanes of `lane_availability_at`
-- (src/swimzh/domain/lane_plan.py) at one moment.
use swimming_in_zurich.Base.{
  ℕ, Bool, true, false, ◌&&◌, ◌||◌, if◌then◌else◌, Option, none, some, List, [], ◌∷◌, any, keep,
  ◌≡◌, refl, ap, ◌∙◌, arith,
}
use swimming_in_zurich.Base.Sort.{insert, sort}
use swimming_in_zurich.Base.FrozenSet.{
  contains as has, union, contains-union, IsCanonical, union-IsCanonical,
}
use swimming_in_zurich.Dates.{Time}
use swimming_in_zurich.Access.{is_public}
use swimming_in_zurich.Schedule.{Weekday, TimeRange, contains, on_weekday}
use swimming_in_zurich.Models.{LanePlan, LaneReservation}
use swimming_in_zurich.Lanes.{
  Split, split_lanes, split_at, active_reservations, lower_lane, no_lanes, add_owner,
}
use swimming_in_zurich.Panel.{Hold, clipped_to, with_lanes, public_holds}

module _ {A : Type 0} where
  any-insert :
      (le : A → A → Bool) (p : A → Bool) (x : A) (xs : List A)
      → any p (insert le x xs) ≡ (p x || any p xs)
  unfolding insert
  any-insert le p x [] = refl
  any-insert le p x (y ∷ ys) = ground (arith, any-insert le p x ys)

  any-sort : (le : A → A → Bool) (p : A → Bool) (xs : List A) → any p (sort le xs) ≡ any p xs
  unfolding sort
  any-sort le p [] = refl
  any-sort le p (x ∷ xs) = any-insert le p x (sort le xs) ∙ ap (λ b. p x || b) (any-sort le p xs)

  any-keep : (p q : A → Bool) (xs : List A) → any p (keep q xs) ≡ any (λ x. q x && p x) xs
  any-keep p q [] = refl
  any-keep p q (x ∷ xs) = ground (arith, any-keep p q xs)

-- One round of the loop of `lane_availability_at`, with the test of the access apart.
abbrev step : Split → LaneReservation → Bool → Split
step s r shown =
    if shown
    then record s { public = union s.public r.lanes }
    else record s { reserved = union s.reserved r.lanes; owners = add_owner s.owners r.access }

step-public :
    (s : Split) (r : LaneReservation) (shown : Bool) (y : ℕ)
    → has (step s r shown).public y ≡ (has s.public y || (shown && has r.lanes y))
step-public s r true y = contains-union s.public r.lanes y
step-public s r false y = ground arith

split_lanes-public :
    (s : Split) (rs : List LaneReservation) (y : ℕ)
    → has (split_lanes s rs).public y
      ≡ (has s.public y || any (λ r. is_public r.access && has r.lanes y) rs)
unfolding split_lanes
split_lanes-public s [] y = ground arith
split_lanes-public s (r ∷ rs) y =
    split_lanes-public (step s r (is_public r.access)) rs y
    ∙ ground (arith, step-public s r (is_public r.access) y)

step-IsCanonical :
    (s : Split) (r : LaneReservation) (shown : Bool)
    → IsCanonical s.public
    → IsCanonical (step s r shown).public
step-IsCanonical s r true h = union-IsCanonical s.public r.lanes h
step-IsCanonical s r false h = h

split_lanes-IsCanonical :
    (s : Split) (rs : List LaneReservation)
    → IsCanonical s.public
    → IsCanonical (split_lanes s rs).public
unfolding split_lanes
split_lanes-IsCanonical s [] h = h
split_lanes-IsCanonical s (r ∷ rs) h =
    split_lanes-IsCanonical (step s r (is_public r.access)) rs
      (step-IsCanonical s r (is_public r.access) h)

pub split_at-IsCanonical :
    (plan : LanePlan) (d : Weekday) (t : Time) → IsCanonical (split_at plan d t).public
unfolding split_at
split_at-IsCanonical plan d t = split_lanes-IsCanonical no_lanes _ tt

-- The reservation is public, holds the moment on the weekday, and the lane is one of its lanes.
abbrev pub opens : Weekday → Time → ℕ → LaneReservation → Bool
opens d t y r =
    (on_weekday d r.weekdays && contains r.time t) && (is_public r.access && has r.lanes y)

-- The public lanes at a moment are those of the public reservations that hold it.
pub split_at-public :
    (plan : LanePlan) (d : Weekday) (t : Time) (y : ℕ)
    → has (split_at plan d t).public y ≡ any (opens d t y) plan.reservations
unfolding split_at active_reservations has
split_at-public plan d t y =
    split_lanes-public no_lanes (sort lower_lane (active_reservations plan d t)) y
    ∙ any-sort lower_lane (λ r. is_public r.access && has r.lanes y) (active_reservations plan d t)
    ∙ any-keep (λ r. is_public r.access && has r.lanes y)
        (λ r. on_weekday d r.weekdays && contains r.time t) plan.reservations

-- `t` lies in the range asked for; no range is the whole day.
abbrev pub inside : Option TimeRange → Time → Bool
inside none t = true
inside (some w) t = contains w t

abbrev pub hold_opens : Time → ℕ → Hold → Bool
hold_opens t y h = contains h.0 t && has h.1 y

clipped-opens :
    (r : TimeRange) (within : Option TimeRange) (lanes : List ℕ) (rest : List Hold) (t : Time)
    (y : ℕ)
    → any (hold_opens t y) (with_lanes (clipped_to r within) lanes rest)
      ≡ ((inside within t && contains r t && has lanes y) || any (hold_opens t y) rest)
unfolding clipped_to contains
clipped-opens r none lanes rest t y = ground arith
clipped-opens r (some w) lanes rest t y = ground arith

-- The holds at a moment are the public reservations at it, cut down to the range asked for.
pub public_holds-opens :
    (rs : List LaneReservation) (d : Weekday) (within : Option TimeRange) (t : Time) (y : ℕ)
    → any (hold_opens t y) (public_holds rs d within) ≡ (inside within t && any (opens d t y) rs)
unfolding public_holds
public_holds-opens [] d within t y = ground arith
public_holds-opens (r ∷ rs) d within t y = ground (
  arith,
  public_holds-opens rs d within t y,
  clipped-opens r.time within r.lanes (public_holds rs d within) t y,
)
