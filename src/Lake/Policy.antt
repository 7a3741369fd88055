-- ===== src/Lake/Policy.antt =====
-- What a run of the refresh policy may do (src/swimzh/etl/refresh.py).
use swimming_in_zurich.Base.{
  ℕ, ◌+◌, ◌*◌, ◌<◌, ◌≤◌, Bool, true, false, Option, none, some, String, ◌≡◌, refl, sym, ap, subst,
  ◌∙◌, ◌⊎◌, inl, inr, arith, Bool-cases, Option-cases,
}
use swimming_in_zurich.Base.Maybe.{Given, >>=-Given}
use swimming_in_zurich.Errors.{JsonValue, JsonFields, Result, ok, err, ProviderError}
use swimming_in_zurich.Cache.Tiers.{CachePolicy}
use swimming_in_zurich.Lake.{
  SilverStatus, fresh, stale, SilverDoc, LakeFiles, read, store, fresh_doc, stale_doc, mark_stale,
}
use swimming_in_zurich.Lake.Refresh.{
  transient, RefreshReason, not_transient, first_run, too_stale, RefreshFailure, is_stale,
  is_within_s, is_older_s, reusable, Left, failed, kept, after_error, after_fetch, after_read,
  refresh_under,
}
use swimming_in_zurich.Lake.Reuse.{reusable-inversion}

module _ {T W : Type 0} (fetch : W → Result T ProviderError × W) (encode : T → JsonFields)
    (decode : JsonFields → Option T) (sha : JsonValue → String) (rule : CachePolicy)
    (source : String) (now : ℕ) (force : Bool) (lake : LakeFiles) (world : W) where
  -- The stored document is reused: it is fresh, not due, and no refresh is forced.
  pub record Reuses (left : Left fetch encode decode sha) : Type 0 where
    pub doc : SilverDoc
    pub value : T
    pub is_stored : read source lake ≡ some (some doc)
    pub is_fresh : doc.header.status ≡ fresh
    pub is_unforced : force ≡ false
    pub is_young : now < doc.header.fetched_at + rule.ttl_s * 1000000
    pub is_decoded : decode doc.payload ≡ some value
    pub has_outcome :
        left.outcome ≡ ok (record { value = value; header = doc.header; fetched = false })
    pub same_lake : left.lake ≡ lake
    pub same_world : left.world ≡ world

  -- The source gave a value, which is stored as fresh at this instant.
  pub record Fetches (left : Left fetch encode decode sha) : Type 0 where
    pub value : T
    pub is_fetched : (fetch world).0 ≡ ok value
    pub has_outcome :
        left.outcome
        ≡ ok (record {
          value = value;
          header = (fresh_doc sha source (encode value) now).header;
          fetched = true;
        })
    pub has_lake : left.lake ≡ store (fresh_doc sha source (encode value) now) lake
    pub has_world : left.world ≡ (fetch world).1

  -- The source failed for a transient cause, and a document that is not too old is kept as stale.
  pub record Keeps (left : Left fetch encode decode sha) : Type 0 where
    pub error : ProviderError
    pub doc : SilverDoc
    pub value : T
    pub is_failed : (fetch world).0 ≡ err error
    pub is_transient : transient error ≡ true
    pub is_stored : read source lake ≡ some (some doc)
    pub is_trusted : now ≤ doc.header.fetched_at + rule.max_stale_s * 1000000
    pub is_decoded : decode doc.payload ≡ some value
    pub has_outcome :
        left.outcome
        ≡ ok (record { value = value; header = (stale_doc doc).header; fetched = false })
    pub has_lake : left.lake ≡ store (stale_doc doc) lake

  -- The reason of an abort.
  abbrev pub Explains : ProviderError → RefreshFailure → Type 0
  Explains error f =
      ((f.reason ≡ not_transient) × (transient error ≡ false))
      ⊎ ((f.reason ≡ first_run) × (transient error ≡ true) × (read source lake ≡ some none))
      ⊎ ((f.reason ≡ too_stale)
          × (transient error ≡ true)
          × ((doc : SilverDoc) × (read source lake ≡ some (some doc))
              × (doc.header.fetched_at + rule.max_stale_s * 1000000 < now)))

  -- The source failed, and nothing is stored.
  pub record Aborts (left : Left fetch encode decode sha) : Type 0 where
    pub error : ProviderError
    pub failure : RefreshFailure
    pub is_failed : (fetch world).0 ≡ err error
    pub has_outcome : left.outcome ≡ err failure
    pub has_cause : failure.cause ≡ error
    pub explains : Explains error failure
    pub same_lake : left.lake ≡ lake

  abbrev pub Obeys : Left fetch encode decode sha → Type 0
  Obeys left = Reuses left ⊎ Fetches left ⊎ Keeps left ⊎ Aborts left

  kept-Reuses :
      (doc : SilverDoc)
      → read source lake ≡ some (some doc)
      → is_stale doc.header.status ≡ false
      → force ≡ false
      → is_within_s rule.ttl_s now doc.header.fetched_at ≡ true
      → Given Obeys (kept fetch encode decode sha doc lake world)
  unfolding is_stale
  kept-Reuses doc found not_stale unforced young = elim (Option-cases (decode doc.payload)) [
    | inl e ↦ rw e tt
    | inr (value, e) ↦ rw e (
        inl (record {
          doc = doc;
          value = value;
          is_stored = found;
          is_fresh = fresh_of doc.header.status not_stale;
          is_unforced = unforced;
          is_young = ground (arith, young);
          is_decoded = e;
          has_outcome = refl;
          same_lake = refl;
          same_world = refl;
        }))
  ]
    where
      fresh_of : (s : SilverStatus) → is_stale s ≡ false → s ≡ fresh
      fresh_of fresh h = refl
      fresh_of stale h = absurd (cc h)

  failed-Obeys :
      (reason : RefreshReason) (error : ProviderError) (at : Option ℕ) (next : W)
      → (fetch world).0 ≡ err error
      → Explains error (record { source = source; reason = reason; cause = error; fetched_at = at })
      → Obeys (failed fetch encode decode sha source reason error at lake next)
  failed-Obeys reason error at next e because = inr (
      inr (
        inr (record {
          error = error;
          failure = _;
          is_failed = e;
          has_outcome = refl;
          has_cause = refl;
          explains = because;
          same_lake = refl;
        })))

  kept-Keeps :
      (doc : SilverDoc) (error : ProviderError) (next : W)
      → (fetch world).0 ≡ err error
      → transient error ≡ true
      → read source lake ≡ some (some doc)
      → is_older_s rule.max_stale_s now doc.header.fetched_at ≡ false
      → Given Obeys (kept fetch encode decode sha (stale_doc doc) (store (stale_doc doc) lake) next)
  unfolding stale_doc
  kept-Keeps doc error next e t found young = elim (Option-cases (decode doc.payload)) [
    | inl d ↦ rw d tt
    | inr (value, d) ↦ rw d (
        inr (
          inr (
            inl (record {
              error = error;
              doc = doc;
              value = value;
              is_failed = e;
              is_transient = t;
              is_stored = found;
              is_trusted = ground (arith, young);
              is_decoded = d;
              has_outcome = refl;
              has_lake = refl;
            }))))
  ]

  after_error-Obeys :
      (previous : Option SilverDoc) (error : ProviderError) (next : W)
      → read source lake ≡ some previous
      → (fetch world).0 ≡ err error
      → Given Obeys (after_error fetch encode decode sha rule source now previous error lake next)
  unfolding mark_stale
  after_error-Obeys none error next found e = elim (Bool-cases (transient error)) [
    | inl t ↦ rw t (failed-Obeys first_run error none next e (inr (inl (refl, t, found))))
    | inr t ↦ rw t (failed-Obeys not_transient error none next e (inl (refl, t)))
  ]
  after_error-Obeys (some doc) error next found e = elim (Bool-cases (transient error)) [
    | inl t ↦ elim (Bool-cases (is_older_s rule.max_stale_s now doc.header.fetched_at)) [
      | inl old ↦
          rw (t, old)
            (failed-Obeys too_stale error (some doc.header.fetched_at) next e
              (inr (inr (refl, t, (doc, found, ground (arith, old))))))
      | inr young ↦ rw (t, young, found) (kept-Keeps doc error next e t found young)
    ]
    | inr t ↦ rw t (failed-Obeys not_transient error none next e (inl (refl, t)))
  ]

  after_fetch-Obeys :
      (previous : Option SilverDoc) (r : Result T ProviderError × W)
      → read source lake ≡ some previous
      → fetch world ≡ r
      → Given Obeys (after_fetch fetch encode decode sha rule source now previous lake r)
  after_fetch-Obeys previous (ok value, next) found e = inr (
      inl (record {
        value = value;
        is_fetched = ap (λ (x : Result T ProviderError × W). x.0) e;
        has_outcome = refl;
        has_lake = refl;
        has_world = sym (ap (λ (x : Result T ProviderError × W). x.1) e);
      }))
  after_fetch-Obeys previous (err error, next) found e =
      after_error-Obeys previous error next found (ap (λ (x : Result T ProviderError × W). x.0) e)

  fetched-Obeys :
      (previous : Option SilverDoc)
      → read source lake ≡ some previous
      → Given Obeys (after_read fetch encode decode sha rule source now previous lake world none)
  fetched-Obeys previous found = after_fetch-Obeys previous (fetch world) found refl

  reusable-Obeys :
      (previous : Option SilverDoc) (o : Option SilverDoc)
      → read source lake ≡ some previous
      → reusable rule force now previous ≡ o
      → Given Obeys (after_read fetch encode decode sha rule source now previous lake world o)
  reusable-Obeys previous none found e = fetched-Obeys previous found
  reusable-Obeys previous (some doc) found e =
      let (same, not_stale, unforced, young) = reusable-inversion rule force now previous doc e in
      kept-Reuses doc (found ∙ ap some same) not_stale unforced young

-- When a run with one source ends without an exception, it has done one of four things. It reused a
-- stored document that is fresh and younger than its time to live, with nothing changed and no
-- refresh forced. It fetched a value and stored it as fresh at this instant. The fetch failed for a
-- transient cause, and it kept a stored document that is no older than the policy trusts, marked as
-- stale with its own instant. Or the fetch failed and it aborts with that cause and an unchanged
-- lake: the cause is not transient, nothing was stored, or what was stored is too old.
pub refresh_under-Obeys :
    {T W : Type 0} (fetch : W → Result T ProviderError × W) (encode : T → JsonFields)
    (decode : JsonFields → Option T) (sha : JsonValue → String) (rule : CachePolicy)
    (source : String) (now : ℕ) (force : Bool) (lake : LakeFiles) (world : W)
    (left : Left fetch encode decode sha)
    → refresh_under fetch encode decode sha rule source now force lake world ≡ some left
    → Obeys fetch encode decode sha rule source now force lake world left
unfolding refresh_under
refresh_under-Obeys fetch encode decode sha rule source now force lake world left h =
    subst (Given Good) h (
      >>=-Given Seen Good (read source lake) _ (reading (read source lake) refl) (λ previous found.
        reusable-Obeys fetch encode decode sha rule source now force lake world previous _ found
          refl))
  where
    Good : Left fetch encode decode sha → Type 0
    Good = Obeys fetch encode decode sha rule source now force lake world

    Seen : Option SilverDoc → Type 0
    Seen previous = read source lake ≡ some previous

    reading : (o : Option (Option SilverDoc)) → read source lake ≡ o → Given Seen o
    reading none e = tt
    reading (some previous) e = e
