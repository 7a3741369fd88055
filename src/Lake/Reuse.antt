-- ===== src/Lake/Reuse.antt =====
-- When the refresh policy reuses a stored document (src/swimzh/etl/refresh.py).
use swimming_in_zurich.Base.{
  ℕ, Bool, true, false, Option, none, some, ◌≡◌, refl, ap, subst, inl, inr, Bool-cases,
}
use swimming_in_zurich.Cache.Tiers.{CachePolicy}
use swimming_in_zurich.Lake.{SilverDoc}
use swimming_in_zurich.Lake.Refresh.{is_stale, is_within_s, reusable}

pub reusable-inversion :
    (rule : CachePolicy) (force : Bool) (now : ℕ) (previous : Option SilverDoc) (doc : SilverDoc)
    → reusable rule force now previous ≡ some doc
    → (previous ≡ some doc)
      × (is_stale doc.header.status ≡ false)
      × (force ≡ false)
      × (is_within_s rule.ttl_s now doc.header.fetched_at ≡ true)
reusable-inversion rule force now none doc h = absurd (cc h)
reusable-inversion rule false now (some previous) doc h =
    elim (Bool-cases (is_stale previous.header.status)) [
      | inl s ↦ absurd (cc (rw s at h))
      | inr s ↦ elim (Bool-cases (is_within_s rule.ttl_s now previous.header.fetched_at)) [
        | inl y ↦
            let same : previous ≡ doc = some_eq (rw (s, y) at h) in
            (
              ap some same,
              subst (λ (d : SilverDoc). is_stale d.header.status ≡ false) same s,
              refl,
              subst (λ (d : SilverDoc). is_within_s rule.ttl_s now d.header.fetched_at ≡ true) same
                  y,
            )
        | inr y ↦ absurd (cc (rw (s, y) at h))
      ]
    ]
  where
    some_eq : {a b : SilverDoc} → some a ≡ some b → a ≡ b
    some_eq k = cc
reusable-inversion rule true now (some previous) doc h = absurd (cc h)
