-- ===== src/Silver/Origin.antt =====
-- Where each bound plan comes from (`bind_plans` of src/swimzh/etl/silver.py).
use swimming_in_zurich.Base.{
  true, false, Option, none, some, List, [], ◌∷◌, String, ◌≡◌, refl, sym, subst, ◌⊎◌, inl, inr, In,
  All, Bool-cases,
}
use swimming_in_zurich.Text.{is_empty, is_within, normalize}
use swimming_in_zurich.Silver.{ParsedPlan, Binding, BoundPlan, items_at}
use swimming_in_zurich.Silver.Join.{
  Joined, bind_to, bind_single, with_token, tokens_of, matches_of, route, route_all, bind_stacked,
  bind_one, bind_url, bind_urls, by_url, bind_plans,
}
use swimming_in_zurich.Silver.Grouped.{All-append, Each, append_at-Each, items_at-Each}

-- The binding takes the whole sheet, or its section's token is in the header of the plan.
abbrev pub Routes : (String → String) → Binding → ParsedPlan → Type 0
Routes casefold b p =
    (b.section ≡ none)
    ⊎ ((section : String) × (b.section ≡ some section)
        × (is_empty (normalize casefold section) ≡ false)
        × (is_within (normalize casefold section) (normalize casefold p.basin_hint) ≡ true))

module _ (casefold : String → String) (K : String → Binding → Type 0)
    (plans : List ParsedPlan) where
  -- A parsed plan and a binding that is known for its url.
  pub record Origin (bp : BoundPlan) : Type 0 where
    pub parsed_plan : ParsedPlan
    pub binding : Binding
    pub is_parsed : In parsed_plan plans
    pub is_known : K parsed_plan.source_url binding
    pub routes : Routes casefold binding parsed_plan
    pub same :
        bp
        ≡ record { pool_id = binding.pool_id; basin_id = binding.basin_id; plan = parsed_plan.plan }

  abbrev Stands : Joined → Type 0
  Stands joined = All Origin joined.bound

  abbrev Sheet : String → ParsedPlan → Type 0
  Sheet url p = In p plans × (p.source_url ≡ url)

  bind_to-Stands :
      (url : String) (b : Binding) (p : ParsedPlan) (joined : Joined)
      → Sheet url p
      → K url b
      → Routes casefold b p
      → Stands joined
      → Stands (bind_to b p joined)
  bind_to-Stands url b p joined (listed, from) known routes stands =
      All-append Origin joined.bound _ stands (
        record {
          parsed_plan = p;
          binding = b;
          is_parsed = listed;
          is_known = subst (λ u. K u b) (sym from) known;
          routes = routes;
          same = refl;
        },
        tt,
      )

  bind_single-Stands :
      (url : String) (ps : List ParsedPlan) (b : Binding) (joined : Joined)
      → All (Sheet url) ps
      → K url b
      → b.section ≡ none
      → Stands joined
      → Stands (bind_single url ps b joined)
  unfolding bind_single
  bind_single-Stands url [] b joined sheets known whole stands = stands
  bind_single-Stands url (p ∷ []) b joined sheets known whole stands =
      bind_to-Stands url b p joined sheets.0 known (inl whole) stands
  bind_single-Stands url (p ∷ q ∷ rest) b joined sheets known whole stands = stands

  -- A token of a known binding.
  abbrev Token : String → String × Binding → Type 0
  Token url (token, b) =
      K url b
      × ((section : String) × (b.section ≡ some section) × (token ≡ normalize casefold section))

  with_token-Token :
      (url : String) (b : Binding) (o : Option String) (tokens : List (String × Binding))
      → K url b
      → b.section ≡ o
      → All (Token url) tokens
      → All (Token url) (with_token casefold o b tokens)
  with_token-Token url b none tokens known e h = h
  with_token-Token url b (some section) tokens known e h = ((known, (section, e, refl)), h)

  tokens_of-Token :
      (url : String) (bs : List Binding) → All (K url) bs → All (Token url) (tokens_of casefold bs)
  unfolding tokens_of
  tokens_of-Token url [] known = tt
  tokens_of-Token url (b ∷ bs) known =
      with_token-Token url b b.section _ known.0 refl (tokens_of-Token url bs known.1)

  abbrev Match : String → ParsedPlan → Binding → Type 0
  Match url p b = K url b × Routes casefold b p

  Token-Match :
      (url token : String) (b : Binding) (p : ParsedPlan)
      → Token url (token, b)
      → is_empty token ≡ false
      → is_within token (normalize casefold p.basin_hint) ≡ true
      → Match url p b
  Token-Match url token b p (known, (section, e, t)) full w =
      (known, inr (section, e, rw⁻¹ t full, rw⁻¹ t w))

  matches_of-Match :
      (url : String) (p : ParsedPlan) (tokens : List (String × Binding))
      → All (Token url) tokens
      → All (Match url p) (matches_of (normalize casefold p.basin_hint) tokens)
  unfolding matches_of
  matches_of-Match url p [] h = tt
  matches_of-Match url p ((token, b) ∷ rest) h = elim (Bool-cases (is_empty token)) [
    | inl e ↦ rw e (matches_of-Match url p rest h.1)
    | inr e ↦ elim (Bool-cases (is_within token (normalize casefold p.basin_hint))) [
      | inl w ↦ rw (e, w) (Token-Match url token b p h.0 e w, matches_of-Match url p rest h.1)
      | inr w ↦ rw (e, w) (matches_of-Match url p rest h.1)
    ]
  ]

  route-Stands :
      (url : String) (p : ParsedPlan) (found : List Binding) (joined : Joined)
      → Sheet url p
      → All (Match url p) found
      → Stands joined
      → Stands (route url p found joined)
  unfolding route
  route-Stands url p [] joined sheet h stands = stands
  route-Stands url p (b ∷ []) joined sheet h stands =
      bind_to-Stands url b p joined sheet h.0.0 h.0.1 stands
  route-Stands url p (b ∷ c ∷ rest) joined sheet h stands = stands

  route_all-Stands :
      (url : String) (tokens : List (String × Binding)) (ps : List ParsedPlan) (joined : Joined)
      → All (Sheet url) ps
      → All (Token url) tokens
      → Stands joined
      → Stands (route_all casefold url tokens ps joined)
  unfolding route_all
  route_all-Stands url tokens [] joined sheets h stands = stands
  route_all-Stands url tokens (p ∷ ps) joined sheets h stands =
      route_all-Stands url tokens ps _ sheets.1 h
        (route-Stands url p _ joined sheets.0 (matches_of-Match url p tokens h) stands)

  bind_stacked-Stands :
      (url : String) (ps : List ParsedPlan) (bs : List Binding) (joined : Joined)
      → All (Sheet url) ps
      → All (K url) bs
      → Stands joined
      → Stands (bind_stacked casefold url ps bs joined)
  unfolding bind_stacked
  bind_stacked-Stands url ps bs joined sheets known =
      route_all-Stands url (tokens_of casefold bs) ps joined sheets (tokens_of-Token url bs known)

  bind_one-Stands :
      (url : String) (ps : List ParsedPlan) (b : Binding) (o : Option String) (joined : Joined)
      → b.section ≡ o
      → All (Sheet url) ps
      → K url b
      → Stands joined
      → Stands (bind_one casefold url ps b o joined)
  bind_one-Stands url ps b none joined e sheets known =
      bind_single-Stands url ps b joined sheets known e
  bind_one-Stands url ps b (some _) joined e sheets known =
      bind_stacked-Stands url ps (b ∷ []) joined sheets (known, tt)

  bind_url-Stands :
      (url : String) (ps : List ParsedPlan) (bs : List Binding) (joined : Joined)
      → All (Sheet url) ps
      → All (K url) bs
      → Stands joined
      → Stands (bind_url casefold url ps bs joined)
  unfolding bind_url
  bind_url-Stands url ps [] joined sheets known stands = stands
  bind_url-Stands url ps (b ∷ []) joined sheets known stands =
      bind_one-Stands url ps b b.section joined refl sheets known.0 stands
  bind_url-Stands url ps (b ∷ c ∷ rest) joined sheets known stands =
      bind_stacked-Stands url ps (b ∷ c ∷ rest) joined sheets known stands

  bind_urls-Stands :
      (url_bindings : List (String × List Binding)) (d : List (String × List ParsedPlan))
      (joined : Joined)
      → Each K url_bindings
      → Each Sheet d
      → Stands joined
      → Stands (bind_urls casefold url_bindings d joined)
  unfolding bind_urls
  bind_urls-Stands url_bindings [] joined known sheets stands = stands
  bind_urls-Stands url_bindings ((url, ps) ∷ rest) joined known sheets stands =
      bind_urls-Stands url_bindings rest _ known sheets.1 (
        bind_url-Stands url ps (items_at url url_bindings) joined sheets.0
          (items_at-Each K url url_bindings known) stands)

  by_url-Each :
      (ps : List ParsedPlan) (d : List (String × List ParsedPlan))
      → ((p : ParsedPlan) → In p ps → In p plans)
      → Each Sheet d
      → Each Sheet (by_url ps d)
  unfolding by_url
  by_url-Each [] d listed e = e
  by_url-Each (p ∷ ps) d listed e =
      by_url-Each ps _ (λ q m. listed q (inr m))
        (append_at-Each Sheet p.source_url p d (listed p (inl refl), refl) e)

  pub bind_plans-Origin :
      (url_bindings : List (String × List Binding))
      → Each K url_bindings
      → All Origin (bind_plans casefold plans url_bindings).bound
  unfolding bind_plans
  bind_plans-Origin url_bindings known =
      bind_urls-Stands url_bindings (by_url plans []) _ known (by_url-Each plans [] (λ p m. m) tt)
        tt
