-- ===== src/Storage/CalendarCodec/RoundTrip.antt =====
-- A calendar that is stored and read back (src/swimzh/storage/calendar_codec.py) answers as before.
use swimming_in_zurich.Base.{
  ℕ, ◌==◌, if◌then◌else◌, Option, none, some, List, [], ◌∷◌, String, any, map, ◌≡◌, refl, sym, ap,
  ◌∙◌, arith, Bool-cases, inl, inr,
}
use swimming_in_zurich.Base.Sort.{insert, sort}
use swimming_in_zurich.Base.FrozenSet.{contains as has, contains-union}
use swimming_in_zurich.Base.Maybe.{map-map_back}
use swimming_in_zurich.Dates.{Date, date_eq, date_eq_iff}
use swimming_in_zurich.Calendar.{ZurichCalendar, holiday_on, context, covers}
use swimming_in_zurich.Panel.{sorted_lanes}
use swimming_in_zurich.Storage.CalendarCodec.{
  item_le, holiday_to_dto, range_to_dto, calendar_to_dto, put_holiday, holidays_from,
  range_from_dto, calendar_from_dto,
}

-- No two items have the same date: the items are those of a dict.
abbrev pub IsDict : List (Date × String) → Type 0
IsDict [] = Unit
IsDict ((day, _) ∷ rest) = (holiday_on rest day ≡ none) × IsDict rest

abbrev or_else : Option String → Option String → Option String
or_else none other = other
or_else (some s) other = some s

or_else-nothing : (o : Option String) (d : Date) → or_else o (holiday_on [] d) ≡ o
unfolding holiday_on
or_else-nothing none d = refl
or_else-nothing (some s) d = refl

holiday_on-put_holiday :
    (m : List (Date × String)) (day d : Date) (name : String)
    → holiday_on (put_holiday day name m) d ≡ (if date_eq day d then some name else holiday_on m d)
unfolding holiday_on put_holiday
holiday_on-put_holiday [] day d name = refl
holiday_on-put_holiday ((k, n) ∷ rest) day d name = ground (
  arith,
  holiday_on-put_holiday rest day d name,
  date_eq_iff k day,
  date_eq_iff k d,
  date_eq_iff day d,
)

holiday_on-insert :
    (item : Date × String) (m : List (Date × String)) (d : Date)
    → holiday_on m item.0 ≡ none
    → holiday_on (insert item_le item m) d
      ≡ (if date_eq item.0 d then some item.1 else holiday_on m d)
unfolding holiday_on insert
holiday_on-insert item [] d h = refl
holiday_on-insert (day, name) ((k, n) ∷ rest) d h = ground (
  arith,
  holiday_on-insert (day, name) rest d,
  date_eq_iff k day,
  date_eq_iff k d,
  date_eq_iff day d,
)

insert-IsDict :
    (item : Date × String) (m : List (Date × String))
    → holiday_on m item.0 ≡ none
    → IsDict m
    → IsDict (insert item_le item m)
unfolding insert holiday_on
insert-IsDict item [] h u = (h, tt)
insert-IsDict (day, name) ((k, n) ∷ rest) h u = ground (
  arith,
  insert-IsDict (day, name) rest,
  holiday_on-insert (day, name) rest k,
  date_eq_iff k day,
  date_eq_iff day k,
)

sort-IsDict :
    (m : List (Date × String))
    → IsDict m
    → IsDict (sort item_le m) × ((d : Date) → holiday_on (sort item_le m) d ≡ holiday_on m d)
unfolding sort holiday_on
sort-IsDict [] u = (tt, λ d. refl)
sort-IsDict ((day, name) ∷ rest) (fresh, u) =
    let (sorted, same) = sort-IsDict rest u in
    let absent = same day ∙ fresh in
    (
      insert-IsDict (day, name) (sort item_le rest) absent sorted,
      λ d.
          holiday_on-insert (day, name) (sort item_le rest) d absent
          ∙ ap (λ o. if date_eq day d then some name else o) (same d),
    )

holiday_on-holidays_from :
    (items m : List (Date × String)) (d : Date)
    → IsDict items
    → holiday_on (holidays_from m (map holiday_to_dto items)) d
      ≡ or_else (holiday_on items d) (holiday_on m d)
unfolding holidays_from holiday_on
holiday_on-holidays_from [] m d u = refl
holiday_on-holidays_from ((day, name) ∷ rest) m d (fresh, u) =
    holiday_on-holidays_from rest (put_holiday day name m) d u
    ∙ ap (λ o. or_else (holiday_on rest d) o) (holiday_on-put_holiday m day d name)
    ∙ first
  where
    first :
        or_else (holiday_on rest d) (if date_eq day d then some name else holiday_on m d)
        ≡ or_else (if date_eq day d then some name else holiday_on rest d) (holiday_on m d)
    first = elim (Bool-cases (date_eq day d)) [
      | inl e ↦ rw (e, ← (date_eq_iff day d).0 e, fresh) refl
      | inr e ↦ rw e refl
    ]

has-any : (xs : List ℕ) (y : ℕ) → has xs y ≡ any (λ x. y == x) xs
unfolding has
has-any [] y = refl
has-any (x ∷ xs) y = ground (arith, has-any xs y)

years-kept :
    (years : List ℕ) (y : ℕ)
    → any (λ x. y == x) (sorted_lanes (sorted_lanes years)) ≡ any (λ x. y == x) years
unfolding sorted_lanes has
years-kept years y =
    sym (has-any (sorted_lanes (sorted_lanes years)) y)
    ∙ contains-union [] (sorted_lanes years) y
    ∙ contains-union [] years y
    ∙ has-any years y

-- A calendar that is stored and read back gives the same context for every date, and covers the same
-- years. Its public holidays are a dict: no date is in it twice.
pub context-calendar_from_dto :
    (calendar : ZurichCalendar) (d : Date)
    → IsDict calendar.public
    → let loaded = calendar_from_dto (calendar_to_dto calendar) in
      (context loaded d ≡ context calendar d) × (covers loaded d ≡ covers calendar d)
unfolding calendar_from_dto calendar_to_dto context covers
context-calendar_from_dto calendar d u =
    let (sorted, same) = sort-IsDict calendar.public u in
    let named : holiday_on (holidays_from [] (map holiday_to_dto (sort item_le calendar.public))) d
        ≡ holiday_on calendar.public d =
      holiday_on-holidays_from (sort item_le calendar.public) [] d sorted
      ∙ or_else-nothing (holiday_on (sort item_le calendar.public) d) d
      ∙ same d in
    (
      rw (named, map-map_back range_from_dto range_to_dto (λ r. refl) calendar.school) refl,
      years-kept calendar.known_years d.year,
    )
