-- ===== src/Panel/Cuts.antt =====
-- The cuts of `best_public_time` (src/swimzh/domain/lane_plan.py): between two neighbouring bounds
-- of the holds the public lanes stay the same.
use swimming_in_zurich.Base.{
  ℕ, ◌≤◌, ◌<◌, true, ◌&&◌, ltb, leb, List, [], ◌∷◌, any, ◌≡◌, refl, ap, ◌⊎◌, inl, inr, arith, In,
  Bool-cases,
}
use swimming_in_zurich.Base.FrozenSet.{
  contains as has, add, contains-add, contains-union, contains-Above, Above, IsCanonical,
  add-IsCanonical, union-IsCanonical,
}
use swimming_in_zurich.Dates.{Time}
use swimming_in_zurich.Schedule.{TimeRange, span, contains}
use swimming_in_zurich.Lanes.{pairwise}
use swimming_in_zurich.Panel.{Hold, hold_bounds, lanes_in}
use swimming_in_zurich.Panel.Holds.{hold_opens}

pub lanes_in-IsCanonical : (hs : List Hold) (cut : TimeRange) → IsCanonical (lanes_in hs cut)
unfolding lanes_in
lanes_in-IsCanonical [] cut = tt
lanes_in-IsCanonical ((r, lanes) ∷ hs) cut =
    elim (Bool-cases (leb r.start cut.start && leb cut.end r.end)) [
      | inl t ↦ rw t (union-IsCanonical (lanes_in hs cut) lanes (lanes_in-IsCanonical hs cut))
      | inr t ↦ rw t (lanes_in-IsCanonical hs cut)
    ]

pub hold_bounds-IsCanonical : (hs : List Hold) → IsCanonical (hold_bounds hs)
unfolding hold_bounds
hold_bounds-IsCanonical [] = tt
hold_bounds-IsCanonical ((r, lanes) ∷ hs) =
    add-IsCanonical r.start (add r.end (hold_bounds hs))
      (add-IsCanonical r.end (hold_bounds hs) (hold_bounds-IsCanonical hs))

-- Both ends of a hold are bounds.
pub hold_bounds-has :
    (hs : List Hold) (h : Hold)
    → In h hs
    → (has (hold_bounds hs) h.0.start ≡ true) × (has (hold_bounds hs) h.0.end ≡ true)
unfolding hold_bounds
hold_bounds-has [] h m = absurd m
hold_bounds-has ((r, lanes) ∷ hs) h m =
    let start_first = contains-add r.start (add r.end (hold_bounds hs)) h.0.start in
    let start_next = contains-add r.end (hold_bounds hs) h.0.start in
    let end_first = contains-add r.start (add r.end (hold_bounds hs)) h.0.end in
    let end_next = contains-add r.end (hold_bounds hs) h.0.end in
    elim m [
      | inl e ↦
          let same : h.0 ≡ r = ap (λ (x : Hold). x.0) e in
          let starts : h.0.start ≡ r.start = ap (λ (x : TimeRange). x.start) same in
          let ends : h.0.end ≡ r.end = ap (λ (x : TimeRange). x.end) same in
          (ground (arith, start_first, start_next), ground (arith, end_first, end_next))
      | inr k ↦
          let (a, b) = hold_bounds-has hs h k in
          (ground (arith, start_first, start_next, a), ground (arith, end_first, end_next, b))
    ]

Above-low : (b : ℕ) (s : List ℕ) (cut : TimeRange) → Above b s → In cut (pairwise s) → b < cut.start
unfolding pairwise
Above-low b [] cut a m = absurd m
Above-low b (x ∷ []) cut a m = absurd m
Above-low b (x ∷ y ∷ ys) cut a (inl e) = rw e a.0
Above-low b (x ∷ y ∷ ys) cut a (inr m) = omega (arith, Above-low x (y ∷ ys) cut a.1 m)

-- A cut is not empty, and no bound lies strictly inside it.
pairwise-gap :
    (s : List ℕ) (cut : TimeRange) (e : ℕ)
    → IsCanonical s
    → In cut (pairwise s)
    → has s e ≡ true
    → (e ≤ cut.start) ⊎ (cut.end ≤ e)
unfolding pairwise has
pairwise-gap [] cut e a m k = absurd m
pairwise-gap (x ∷ []) cut e a m k = absurd m
pairwise-gap (x ∷ y ∷ ys) cut e a (inl i) k = rw i (ground (arith, contains-Above y e ys a.1))
pairwise-gap (x ∷ y ∷ ys) cut e a (inr m) k =
    ground (arith, pairwise-gap (y ∷ ys) cut e a.1 m, Above-low x (y ∷ ys) cut a m)

pub pairwise-filled :
    (s : List ℕ) (cut : TimeRange) → IsCanonical s → In cut (pairwise s) → cut.start < cut.end
unfolding pairwise
pairwise-filled [] cut a m = absurd m
pairwise-filled (x ∷ []) cut a m = absurd m
pairwise-filled (x ∷ y ∷ ys) cut a (inl e) = rw e a.0
pairwise-filled (x ∷ y ∷ ys) cut a (inr m) = pairwise-filled (y ∷ ys) cut a.1 m

-- A moment between two bounds lies in a cut.
pub pairwise-cut :
    (s : List ℕ) (a b t : ℕ)
    → IsCanonical s
    → has s a ≡ true
    → has s b ≡ true
    → a ≤ t
    → t < b
    → (cut : TimeRange) × In cut (pairwise s) × (cut.start ≤ t) × (t < cut.end)
unfolding pairwise has
pairwise-cut [] a b t c h k p q = absurd (cc h)
pairwise-cut (x ∷ []) a b t c h k p q = absurd (ground arith)
pairwise-cut (x ∷ y ∷ ys) a b t c h k p q = elim (Bool-cases (ltb t y)) [
  | inl e ↦ (span x y, inl refl, ground (arith, contains-Above x a (y ∷ ys) c), ground arith)
  | inr e ↦
      let rest : has (y ∷ ys) b ≡ true = ground arith in
      let (cut, m, low, high) =
        pairwise-cut (y ∷ ys) y b t c.1 (ground arith) rest (ground arith) q in
      (cut, inr m, low, high)
]

module _ (all_holds : List Hold) (cut : TimeRange) (t : Time) (y : ℕ)
    (listed : In cut (pairwise (hold_bounds all_holds))) (p : cut.start ≤ t) (q : t < cut.end) where
  -- A hold that spans the cut is one that holds the moment.
  spans-opens :
      (h : Hold)
      → In h all_holds
      → (leb h.0.start cut.start && leb cut.end h.0.end) ≡ contains h.0 t
  unfolding contains
  spans-opens h m =
      let (starts, ends) = hold_bounds-has all_holds h m in
      let bounds = hold_bounds-IsCanonical all_holds in
      ground (
        arith,
        pairwise-gap (hold_bounds all_holds) cut h.0.start bounds listed starts,
        pairwise-gap (hold_bounds all_holds) cut h.0.end bounds listed ends,
      )

  lanes_in-some :
      (hs : List Hold)
      → ((h : Hold) → In h hs → In h all_holds)
      → has (lanes_in hs cut) y ≡ any (hold_opens t y) hs
  unfolding lanes_in has
  lanes_in-some [] sub = refl
  lanes_in-some ((r, lanes) ∷ hs) sub =
      let same = spans-opens (r, lanes) (sub (r, lanes) (inl refl)) in
      let rest = lanes_in-some hs (λ h m. sub h (inr m)) in
      elim (Bool-cases (leb r.start cut.start && leb cut.end r.end)) [
        | inl e ↦ rw (e, contains-union (lanes_in hs cut) lanes y, rest) (ground (arith, same))
        | inr e ↦ rw (e, rest) (ground (arith, same))
      ]

-- The lanes of a cut are those of the holds at any moment of it.
pub lanes_in-opens :
    (hs : List Hold) (cut : TimeRange) (t : Time) (y : ℕ)
    → In cut (pairwise (hold_bounds hs))
    → cut.start ≤ t
    → t < cut.end
    → has (lanes_in hs cut) y ≡ any (hold_opens t y) hs
lanes_in-opens hs cut t y m p q = lanes_in-some hs cut t y m p q hs (λ h k. k)
