-- ===== src/Pricing/Choice.antt =====
-- `PriceTable.entry_for` (src/swimzh/domain/pricing.py): which entry an age takes.
use swimming_in_zurich.Base.{
  ℕ, ◌≤◌, ltb, le→leb, if◌then◌else◌, Option, none, some, List, [], ◌∷◌, ◌≡◌, refl, sym, ap, subst,
  ◌∙◌, ◌⊎◌, inl, inr, arith, In,
}
use swimming_in_zurich.Models.{PriceEntry, PriceTable}
use swimming_in_zurich.Pricing.{
  Bounded, with_bound, bounded, cleared, eligible, greatest, pick, entry_for,
}

-- An age clears a bound that it is not below; an unknown age clears every bound.
abbrev pub Clears : Option ℕ → ℕ → Type 0
Clears none bound = Unit
Clears (some age) bound = bound ≤ age

-- The entry publishes a bound that the age clears.
abbrev pub Applies : Option ℕ → List PriceEntry → PriceEntry → ℕ → Type 0
Applies age entries e bound = In e entries × (e.min_age ≡ some bound) × Clears age bound

In-with_bound :
    (p : Bounded) (m : Option ℕ) (e : PriceEntry) (rest : List Bounded)
    → In p (with_bound m e rest)
    → ((m ≡ some p.0) × (e ≡ p.1)) ⊎ In p rest
In-with_bound p none e rest i = inr i
In-with_bound p (some bound) e rest (inl k) =
    inl (ap some (sym (ap (λ (q : Bounded). q.0) k)), sym (ap (λ (q : Bounded). q.1) k))
In-with_bound p (some bound) e rest (inr i) = inr i

In-with_bound_rest :
    (p : Bounded) (m : Option ℕ) (e : PriceEntry) (rest : List Bounded)
    → In p rest
    → In p (with_bound m e rest)
In-with_bound_rest p none e rest i = i
In-with_bound_rest p (some bound) e rest i = inr i

In-bounded :
    (p : Bounded) (es : List PriceEntry) → In p (bounded es) → In p.1 es × (p.1.min_age ≡ some p.0)
unfolding bounded
In-bounded p [] i = absurd i
In-bounded p (e ∷ es) i = elim (In-with_bound p e.min_age e (bounded es) i) [
  | inl (m, k) ↦ (inl (sym k), ap (λ (x : PriceEntry). x.min_age) (sym k) ∙ m)
  | inr j ↦ let r = In-bounded p es j in (inr r.0, r.1)
]

In-bounded_of :
    (bound : ℕ) (e : PriceEntry) (es : List PriceEntry)
    → In e es
    → e.min_age ≡ some bound
    → In (bound, e) (bounded es)
unfolding bounded
In-bounded_of bound e [] i m = absurd i
In-bounded_of bound e (x ∷ es) (inl k) m = rw (← k, m) (inl refl)
In-bounded_of bound e (x ∷ es) (inr i) m =
    In-with_bound_rest (bound, e) x.min_age x (bounded es) (In-bounded_of bound e es i m)

In-cleared :
    (age : ℕ) (p : Bounded) (ps : List Bounded) → In p (cleared age ps) → In p ps × (p.0 ≤ age)
unfolding cleared
In-cleared age p [] i = absurd i
In-cleared age p (q ∷ ps) i = ground (arith, In-cleared age p ps, ap (λ (x : Bounded). x.0))

In-cleared_of :
    (age : ℕ) (p : Bounded) (ps : List Bounded) → In p ps → p.0 ≤ age → In p (cleared age ps)
unfolding cleared
In-cleared_of age p [] i h = i
In-cleared_of age p (q ∷ ps) (inl e) h = rw (le→leb q.0 age (rw e at h)) (inl e)
In-cleared_of age p (q ∷ ps) (inr i) h = ground (arith, In-cleared_of age p ps i h)

-- The better of two pairs, the first where their bounds are equal.
abbrev better : Bounded → Bounded → Bounded
better best p = if ltb best.0 p.0 then p else best

better-cases :
    (best p : Bounded)
    → ((better best p ≡ best) × (p.0 ≤ best.0)) ⊎ ((better best p ≡ p) × (best.0 ≤ p.0))
better-cases best p = ground arith

In-greatest : (best : Bounded) (ps : List Bounded) → In (greatest best ps) (best ∷ ps)
unfolding greatest
In-greatest best [] = inl refl
In-greatest best (p ∷ ps) = elim (In-greatest (better best p) ps) [
  | inl e ↦ elim (better-cases best p) [ inl (k, _) ↦ inl (e ∙ k) | inr (k, _) ↦ inr (inl (e ∙ k)) ]
  | inr i ↦ inr (inr i)
]

greatest-bound :
    (best : Bounded) (ps : List Bounded) (p : Bounded)
    → In p (best ∷ ps)
    → p.0 ≤ (greatest best ps).0
unfolding greatest
greatest-bound best [] p (inl e) = rw e (omega arith)
greatest-bound best [] p (inr i) = absurd i
greatest-bound best (q ∷ ps) p (inr (inr i)) = greatest-bound (better best q) ps p (inr i)
greatest-bound best (q ∷ ps) p (inl e) =
    let low = greatest-bound (better best q) ps (better best q) (inl refl) in
    rw e (ground (arith, better-cases best q, low))
greatest-bound best (q ∷ ps) p (inr (inl e)) =
    let low = greatest-bound (better best q) ps (better best q) (inl refl) in
    rw e (ground (arith, better-cases best q, low))

In-eligible :
    (age : Option ℕ) (p : Bounded) (es : List PriceEntry)
    → In p (eligible age (bounded es))
    → Applies age es p.1 p.0
In-eligible none p es i = let r = In-bounded p es i in (r.0, r.1, tt)
In-eligible (some n) p es i =
    let c = In-cleared n p (bounded es) i in let r = In-bounded p es c.0 in (r.0, r.1, c.1)

In-eligible_of :
    (age : Option ℕ) (bound : ℕ) (e : PriceEntry) (es : List PriceEntry)
    → Applies age es e bound
    → In (bound, e) (eligible age (bounded es))
In-eligible_of none bound e es h = In-bounded_of bound e es h.0 h.1
In-eligible_of (some n) bound e es h =
    In-cleared_of n (bound, e) (bounded es) (In-bounded_of bound e es h.0 h.1) h.2

-- The entry that applies with the greatest bound of those that apply.
abbrev pub Dearest : Option ℕ → List PriceEntry → PriceEntry → Type 0
Dearest age entries e =
    (bound : ℕ) × Applies age entries e bound
    × ((other : PriceEntry) (b : ℕ) → Applies age entries other b → b ≤ bound)

pick-cases :
    (ps : List Bounded)
    → ((ps ≡ []) × (pick ps ≡ none))
      ⊎ ((p : Bounded) × In p ps × ((q : Bounded) → In q ps → q.0 ≤ p.0) × (pick ps ≡ some p.1))
pick-cases [] = inl (refl, refl)
pick-cases (p ∷ ps) = inr (greatest p ps, In-greatest p ps, (λ q i. greatest-bound p ps q i), refl)

-- The tariff answers for every age: either with an entry of the table whose published bound the age
-- clears and is the greatest that it clears (of all, if the age is unknown), or with nothing, and
-- then no entry of the table publishes a bound that the age clears.
pub entry_for-Dearest :
    (table : PriceTable) (age : Option ℕ)
    → ((e : PriceEntry) × (entry_for table age ≡ some e) × Dearest age table.entries e)
      ⊎ ((entry_for table age ≡ none)
          × ((e : PriceEntry) (bound : ℕ) → ¬ Applies age table.entries e bound))
unfolding entry_for
entry_for-Dearest table age = elim (pick-cases (eligible age (bounded table.entries))) [
  | inl (empty, k) ↦ inr (k, λ e bound h. gone e bound empty h)
  | inr (p, listed, top, k) ↦ inl (
    p.1,
    k,
    (
      p.0,
      In-eligible age p table.entries listed,
      λ other b h. top (b, other) (In-eligible_of age b other table.entries h),
    ),
  )
]
  where
    gone :
        (e : PriceEntry) (bound : ℕ)
        → eligible age (bounded table.entries) ≡ []
        → ¬ Applies age table.entries e bound
    gone e bound empty h =
        let listed = In-eligible_of age bound e table.entries h in
        absurd (subst (λ (ps : List Bounded). In (bound, e) ps) empty listed)
