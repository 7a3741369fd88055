-- ===== src/Pricing.antt =====
-- src/swimzh/domain/pricing.py: the entry of a tariff for an age.
pub mod Choice
use swimming_in_zurich.Base.{
  ℕ, ◌≤◌, Bool, true, false, ltb, leb, if◌then◌else◌, Option, none, some, List, [], ◌∷◌,
}
use swimming_in_zurich.Models.{PriceEntry, PriceTable}

abbrev pub Bounded : Type 0
Bounded = ℕ × PriceEntry

abbrev pub with_bound : Option ℕ → PriceEntry → List Bounded → List Bounded
with_bound none e rest = rest
with_bound (some bound) e rest = (bound, e) ∷ rest

-- `[(e.min_age, e) for e in entries if e.min_age is not None]`
unfoldable pub bounded : List PriceEntry → List Bounded
bounded [] = []
bounded (e ∷ es) = with_bound e.min_age e (bounded es)

-- `[(bound, e) for bound, e in pairs if bound <= age]`
unfoldable pub cleared : ℕ → List Bounded → List Bounded
cleared age [] = []
cleared age ((bound, e) ∷ rest) =
    if leb bound age then (bound, e) ∷ cleared age rest else cleared age rest

abbrev pub eligible : Option ℕ → List Bounded → List Bounded
eligible none pairs = pairs
eligible (some age) pairs = cleared age pairs

-- `max(pairs, key=bound)`: the first of the greatest.
unfoldable pub greatest : Bounded → List Bounded → Bounded
greatest best [] = best
greatest best (p ∷ ps) = greatest (if ltb best.0 p.0 then p else best) ps

abbrev pub pick : List Bounded → Option PriceEntry
pick [] = none
pick (p ∷ ps) = some (greatest p ps).1

unfoldable pub entry_for : PriceTable → Option ℕ → Option PriceEntry
unfolding bounded cleared greatest
entry_for table age = pick (eligible age (bounded table.entries))

unfoldable pub price_for : PriceTable → Option ℕ → Option PriceEntry
unfolding entry_for
price_for table age = entry_for table age
