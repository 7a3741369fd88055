-- ===== src/Lanes/Merge.antt =====
-- The merging of public ranges in `_public_run_end` (src/swimzh/domain/lane_plan.py).
use swimming_in_zurich.Base.{
  ◌≤◌, ◌<◌, Bool, true, ◌||◌, leb, leb→le, List, [], ◌∷◌, max, any, ◌≡◌, refl, inl, inr, arith, All,
  All-mono, Bool-cases,
}
use swimming_in_zurich.Base.Sort.{Ascending}
use swimming_in_zurich.Dates.{Time, pair_le}
use swimming_in_zurich.Schedule.{TimeRange, span, contains}
use swimming_in_zurich.Lanes.{range_le, merge_from, merge_ranges}

-- Some range holds the moment.
abbrev pub covers : List TimeRange → Time → Bool
covers rs u = any (λ r. contains r u) rs

contains-max :
    (s e u : Time) (r : TimeRange)
    → s ≤ r.start
    → r.start ≤ e
    → contains (span s (max e r.end)) u ≡ (contains (span s e) u || contains r u)
unfolding contains
contains-max s e u r p q = ground arith

range_le-starts :
    (r : TimeRange) (rs : List TimeRange)
    → All (λ x. range_le r x ≡ true) rs
    → All (λ x. r.start ≤ x.start) rs
range_le-starts r rs = All-mono _ _ rs (λ x i. lower x i)
  where
    lower : (x : TimeRange) → range_le r x ≡ true → r.start ≤ x.start
    lower x i = unfold pair_le in ground arith

-- Merging neither loses nor invents public time.
merge_from-covers :
    (s e u : Time) (rs : List TimeRange)
    → All (λ r. s ≤ r.start) rs
    → Ascending range_le rs
    → covers (merge_from s e rs) u ≡ (contains (span s e) u || covers rs u)
unfolding merge_from
merge_from-covers s e u [] h a = refl
merge_from-covers s e u (r ∷ rs) h a = elim (Bool-cases (leb r.start e)) [
  | inl t ↦
      rw
        (
          t,
          merge_from-covers s (max e r.end) u rs h.1 a.1,
          contains-max s e u r h.0 (leb→le r.start e t),
        )
        (or_assoc (contains (span s e) u) (contains r u) (covers rs u))
  | inr t ↦ rw (t, merge_from-covers r.start r.end u rs (range_le-starts r rs a.0) a.1)
]
  where
    or_assoc : (a b c : Bool) → ((a || b) || c) ≡ (a || (b || c))
    or_assoc a b c = ground arith

-- Runs that are apart: each ends before the later ones start.
abbrev pub Apart : List TimeRange → Type 0
Apart [] = Unit
Apart (r ∷ rs) = All (λ q. r.end < q.start) rs × Apart rs

merge_from-Apart :
    (s e : Time) (rs : List TimeRange)
    → s < e
    → All (λ r. r.start < r.end) rs
    → All (λ r. s ≤ r.start) rs
    → Ascending range_le rs
    → Apart (merge_from s e rs) × All (λ q. (s ≤ q.start) × (q.start < q.end)) (merge_from s e rs)
unfolding merge_from
merge_from-Apart s e [] p v h a = omega arith
merge_from-Apart s e (r ∷ rs) p v h a = elim (Bool-cases (leb r.start e)) [
  | inl t ↦ rw t (merge_from-Apart s (max e r.end) rs (omega arith) v.1 h.1 a.1)
  | inr t ↦
      let later : e < r.start = ground arith in
      let (apart, low) = merge_from-Apart r.start r.end rs v.0 v.1 (range_le-starts r rs a.0) a.1 in
      rw t (
        (All-mono _ _ (merge_from r.start r.end rs) (λ q k. omega arith) low, apart),
        ((omega arith, p), All-mono _ _ (merge_from r.start r.end rs) (λ q k. omega arith) low),
      )
]

-- Runs that are apart and not empty, with the moments that the ranges cover.
pub record Merges (rs runs : List TimeRange) : Type 0 where
  pub apart : Apart runs
  pub filled : All (λ q. q.start < q.end) runs
  pub same : (u : Time) → covers runs u ≡ covers rs u

pub merge_ranges-Merges :
    (rs : List TimeRange)
    → All (λ r. r.start < r.end) rs
    → Ascending range_le rs
    → Merges rs (merge_ranges rs)
unfolding merge_ranges
merge_ranges-Merges [] v a = record { apart = tt; filled = tt; same = λ u. refl }
merge_ranges-Merges (r ∷ rs) v a =
    let low = range_le-starts r rs a.0 in
    let (apart, bounds) = merge_from-Apart r.start r.end rs v.0 v.1 low a.1 in
    record {
      apart = apart;
      filled = All-mono _ _ (merge_from r.start r.end rs) (λ q k. k.1) bounds;
      same = λ u. merge_from-covers r.start r.end u rs low a.1;
    }
