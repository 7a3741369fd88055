-- ===== src/Boundary/Weekdays.antt =====
-- Sets and dicts of weekdays in the order of the week (src/swimzh/boundary/mapping.py).
use swimming_in_zurich.Base.{
  ℕ, ◌==◌, ==_iff, Bool, true, if◌then◌else◌, none, List, [], ◌∷◌, ◌≡◌, refl, sym, ap, ◌∙◌, ◌↔◌,
  inl, inr, arith, Option-cases, In, In-of_any, any-of_In, keep-cong,
}
use swimming_in_zurich.Schedule.{
  Weekday, monday, tuesday, wednesday, thursday, friday, saturday, sunday, weekday_value,
  weekday_of, on_weekday,
}
use swimming_in_zurich.Panel.{week, sorted_weekdays}
use swimming_in_zurich.Panel.Roster.{In-sorted_weekdays, every_weekday}
use swimming_in_zurich.Boundary.Plans.{lanes_on, items_of, sorted_items}

weekday_of-value : (w : Weekday) → weekday_of (weekday_value w) ≡ w
unfolding weekday_of weekday_value
weekday_of-value monday = refl
weekday_of-value tuesday = refl
weekday_of-value wednesday = refl
weekday_of-value thursday = refl
weekday_of-value friday = refl
weekday_of-value saturday = refl
weekday_of-value sunday = refl

weekday_value_inj : (v w : Weekday) → weekday_value v ≡ weekday_value w → v ≡ w
weekday_value_inj v w h = sym (weekday_of-value v) ∙ ap weekday_of h ∙ weekday_of-value w

on_weekday-iff_In : (w : Weekday) (ws : List Weekday) → (on_weekday w ws ≡ true) ↔ In w ws
unfolding on_weekday
on_weekday-iff_In w ws = (
  λ h.
      let (v, m, e) = In-of_any (λ v. weekday_value w == weekday_value v) ws h in
      rw (weekday_value_inj w v ((==_iff (weekday_value w) (weekday_value v)).0 e)) m,
  λ m.
      any-of_In (λ v. weekday_value w == weekday_value v) w ws m
        ((==_iff (weekday_value w) (weekday_value w)).1 refl),
)

bool-ext : (a b : Bool) → (a ≡ true → b ≡ true) → (b ≡ true → a ≡ true) → a ≡ b
bool-ext a b h k = ground (arith, h, k)

pub sorted_weekdays_idem :
    (ws : List Weekday) → sorted_weekdays (sorted_weekdays ws) ≡ sorted_weekdays ws
unfolding sorted_weekdays
sorted_weekdays_idem ws =
    keep-cong (λ w. on_weekday w (sorted_weekdays ws)) (λ w. on_weekday w ws) week
      λ w _.
        bool-ext (on_weekday w (sorted_weekdays ws)) (on_weekday w ws)
          (λ h. (In-sorted_weekdays w ws).0 ((on_weekday-iff_In w (sorted_weekdays ws)).0 h))
          (λ h. (on_weekday-iff_In w (sorted_weekdays ws)).1 ((In-sorted_weekdays w ws).1 h))

items_of-cong :
    (ws : List Weekday) (d e : List (Weekday × ℕ))
    → ((w : Weekday) → In w ws → lanes_on w d ≡ lanes_on w e)
    → items_of ws d ≡ items_of ws e
unfolding items_of
items_of-cong [] d e h = refl
items_of-cong (w ∷ ws) d e h = rw (h w (inl refl), items_of-cong ws d e (λ v m. h v (inr m)))

lanes_on-items_of :
    (w : Weekday) (ws : List Weekday) (d : List (Weekday × ℕ))
    → lanes_on w (items_of ws d) ≡ (if on_weekday w ws then lanes_on w d else none)
unfolding items_of lanes_on on_weekday
lanes_on-items_of w [] d = refl
lanes_on-items_of w (v ∷ ws) d =
    let same : weekday_value w ≡ weekday_value v → lanes_on w d ≡ lanes_on v d =
      λ h. ap (λ x. lanes_on x d) (weekday_value_inj w v h) in
    elim (Option-cases (lanes_on v d)) [
      | inl e ↦ rw e (ground (arith, lanes_on-items_of w ws d, same, e))
      | inr (n, e) ↦ rw e (ground (arith, lanes_on-items_of w ws d, same, e))
    ]

every : (w : Weekday) → on_weekday w week ≡ true
every w = (on_weekday-iff_In w week).1 (every_weekday w)

pub sorted_items_idem : (d : List (Weekday × ℕ)) → sorted_items (sorted_items d) ≡ sorted_items d
unfolding sorted_items
sorted_items_idem d =
    items_of-cong week (items_of week d) d
      λ w _. lanes_on-items_of w week d ∙ ap (λ b. if b then lanes_on w d else none) (every w)
