-- ===== src/Silver/Counts.antt =====
-- No parsed plan is lost or doubled (`bind_plans` of src/swimzh/etl/silver.py).
use swimming_in_zurich.Base.{
  ℕ, ◌+◌, Bool, Option, none, some, List, [], ◌∷◌, ◌++◌, String, str_eq, map, ◌≡◌, refl, ap, sym,
  ◌∙◌, inl, inr, arith, All, Bool-cases,
}
use swimming_in_zurich.Base.Count.{cons_cong, count, count-append, map-append}
use swimming_in_zurich.Models.{LanePlan}
use swimming_in_zurich.Silver.{ParsedPlan, Binding, BoundPlan, UnboundPlan, append_at, items_at}
use swimming_in_zurich.Silver.Grouped.{Each, append_at-Each}
use swimming_in_zurich.Silver.Join.{
  Joined, bind_to, leave_unbound, unbound_plan, split_reason, bind_single, tokens_of, route,
  route_all, bind_stacked, bind_one, bind_url, bind_urls, by_url, bind_plans,
}

abbrev pub header : ParsedPlan → String × String
header p = (p.source_url, p.basin_hint)

abbrev pub unbound_header : UnboundPlan → String × String
unbound_header u = (u.source_url, u.basin_hint)

abbrev pub lanes_of : ParsedPlan → LanePlan
lanes_of p = p.plan

abbrev pub bound_lanes : BoundPlan → LanePlan
bound_lanes b = b.plan

-- The outcome places a collection of parsed plans, given by how many of them pass each test: some of
-- them are bound, with their lanes as they are, the others reported with their url and header.
pub record Split (n : (ParsedPlan → Bool) → ℕ) (joined : Joined) : Type 0 where
  pub bound_from : List ParsedPlan
  pub unbound_from : List ParsedPlan
  pub same_lanes : map bound_lanes joined.bound ≡ map lanes_of bound_from
  pub same_headers : map unbound_header joined.unbound ≡ map header unbound_from
  pub counts : (q : ParsedPlan → Bool) → count q bound_from + count q unbound_from ≡ n q

abbrev Of : String → ParsedPlan → Type 0
Of url p = p.source_url ≡ url

abbrev AtUrl : String → List ParsedPlan → Type 0
AtUrl url ps = All (Of url) ps

recount :
    (n m : (ParsedPlan → Bool) → ℕ) (joined : Joined)
    → ((q : ParsedPlan → Bool) → n q ≡ m q)
    → Split n joined
    → Split m joined
recount n m joined h s = record {
  bound_from = s.bound_from;
  unbound_from = s.unbound_from;
  same_lanes = s.same_lanes;
  same_headers = s.same_headers;
  counts = λ q. s.counts q ∙ h q;
}

-- A collection with some more plans.
abbrev more : ((ParsedPlan → Bool) → ℕ) → List ParsedPlan → (ParsedPlan → Bool) → ℕ
more n ps q = n q + count q ps

bind_to-Split :
    (n : (ParsedPlan → Bool) → ℕ) (b : Binding) (p : ParsedPlan) (joined : Joined)
    → Split n joined
    → Split (more n (p ∷ [])) (bind_to b p joined)
bind_to-Split n b p joined s = record {
  bound_from = s.bound_from ++ (p ∷ []);
  unbound_from = s.unbound_from;
  same_lanes =
      rw
        (
          map-append bound_lanes joined.bound (_ ∷ []),
          map-append lanes_of s.bound_from (p ∷ []),
          s.same_lanes,
        )
        refl;
  same_headers = s.same_headers;
  counts = λ q. omega (arith, count-append q s.bound_from (p ∷ []), s.counts q);
}

headers-unbound :
    (url reason : String) (ps : List ParsedPlan)
    → AtUrl url ps
    → map unbound_header (map (unbound_plan url reason) ps) ≡ map header ps
headers-unbound url reason [] h = refl
headers-unbound url reason (p ∷ ps) h =
    cons_cong (ap (λ u. (u, p.basin_hint)) (sym h.0)) (headers-unbound url reason ps h.1)

leave_unbound-Split :
    (n : (ParsedPlan → Bool) → ℕ) (url reason : String) (ps : List ParsedPlan) (joined : Joined)
    → AtUrl url ps
    → Split n joined
    → Split (more n ps) (leave_unbound url reason ps joined)
leave_unbound-Split n url reason ps joined h s = record {
  bound_from = s.bound_from;
  unbound_from = s.unbound_from ++ ps;
  same_lanes = s.same_lanes;
  same_headers =
      rw
        (
          map-append unbound_header joined.unbound (map (unbound_plan url reason) ps),
          map-append header s.unbound_from ps,
          s.same_headers,
          headers-unbound url reason ps h,
        )
        refl;
  counts = λ q. omega (arith, count-append q s.unbound_from ps, s.counts q);
}

bind_single-Split :
    (n : (ParsedPlan → Bool) → ℕ) (url : String) (ps : List ParsedPlan) (b : Binding)
    (joined : Joined)
    → AtUrl url ps
    → Split n joined
    → Split (more n ps) (bind_single url ps b joined)
unfolding bind_single
bind_single-Split n url [] b joined = leave_unbound-Split n url (split_reason 0) [] joined
bind_single-Split n url (p ∷ []) b joined = λ h. bind_to-Split n b p joined
bind_single-Split n url (p ∷ q ∷ rest) b joined = leave_unbound-Split n url _ (p ∷ q ∷ rest) joined

route-Split :
    (n : (ParsedPlan → Bool) → ℕ) (url : String) (p : ParsedPlan) (found : List Binding)
    (joined : Joined)
    → p.source_url ≡ url
    → Split n joined
    → Split (more n (p ∷ [])) (route url p found joined)
unfolding route
route-Split n url p [] joined h = leave_unbound-Split n url _ (p ∷ []) joined (h, tt)
route-Split n url p (b ∷ []) joined h = bind_to-Split n b p joined
route-Split n url p (b ∷ c ∷ rest) joined h = leave_unbound-Split n url _ (p ∷ []) joined (h, tt)

module _ (casefold : String → String) where
  route_all-Split :
      (n : (ParsedPlan → Bool) → ℕ) (url : String) (tokens : List (String × Binding))
      (ps : List ParsedPlan) (joined : Joined)
      → AtUrl url ps
      → Split n joined
      → Split (more n ps) (route_all casefold url tokens ps joined)
  unfolding route_all
  route_all-Split n url tokens [] joined h s = recount n _ joined (λ q. omega arith) s
  route_all-Split n url tokens (p ∷ ps) joined h s =
      recount (more (more n (p ∷ [])) ps) (more n (p ∷ ps)) _ (λ q. ground arith)
        (route_all-Split (more n (p ∷ [])) url tokens ps _ h.1 (route-Split n url p _ joined h.0 s))

  bind_stacked-Split :
      (n : (ParsedPlan → Bool) → ℕ) (url : String) (ps : List ParsedPlan) (bs : List Binding)
      (joined : Joined)
      → AtUrl url ps
      → Split n joined
      → Split (more n ps) (bind_stacked casefold url ps bs joined)
  unfolding bind_stacked
  bind_stacked-Split n url ps bs = route_all-Split n url (tokens_of casefold bs) ps

  bind_one-Split :
      (n : (ParsedPlan → Bool) → ℕ) (url : String) (ps : List ParsedPlan) (b : Binding)
      (o : Option String) (joined : Joined)
      → AtUrl url ps
      → Split n joined
      → Split (more n ps) (bind_one casefold url ps b o joined)
  bind_one-Split n url ps b none = bind_single-Split n url ps b
  bind_one-Split n url ps b (some _) = bind_stacked-Split n url ps (b ∷ [])

  bind_url-Split :
      (n : (ParsedPlan → Bool) → ℕ) (url : String) (ps : List ParsedPlan) (bs : List Binding)
      (joined : Joined)
      → AtUrl url ps
      → Split n joined
      → Split (more n ps) (bind_url casefold url ps bs joined)
  unfolding bind_url
  bind_url-Split n url ps [] = leave_unbound-Split n url _ ps
  bind_url-Split n url ps (b ∷ []) = bind_one-Split n url ps b b.section
  bind_url-Split n url ps (b ∷ c ∷ rest) = bind_stacked-Split n url ps (b ∷ c ∷ rest)

  -- The number of plans of the groups that pass a test.
  abbrev tally : (ParsedPlan → Bool) → List (String × List ParsedPlan) → ℕ
  tally q [] = 0
  tally q ((_, ps) ∷ rest) = count q ps + tally q rest

  bind_urls-Split :
      (n : (ParsedPlan → Bool) → ℕ) (url_bindings : List (String × List Binding))
      (d : List (String × List ParsedPlan)) (joined : Joined)
      → Each Of d
      → Split n joined
      → Split (λ q. n q + tally q d) (bind_urls casefold url_bindings d joined)
  unfolding bind_urls
  bind_urls-Split n url_bindings [] joined h s = recount n _ joined (λ q. omega arith) s
  bind_urls-Split n url_bindings ((url, ps) ∷ rest) joined h s =
      recount (λ q. more n ps q + tally q rest) _ _ (λ q. omega arith)
        (bind_urls-Split (more n ps) url_bindings rest _ h.1
          (bind_url-Split n url ps (items_at url url_bindings) joined h.0 s))

  tally-append_at :
      (q : ParsedPlan → Bool) (key : String) (p : ParsedPlan) (d : List (String × List ParsedPlan))
      → tally q (append_at key p d) ≡ tally q d + count q (p ∷ [])
  unfolding append_at
  tally-append_at q key p [] = omega arith
  tally-append_at q key p ((k, ps) ∷ rest) = elim (Bool-cases (str_eq key k)) [
    | inl e ↦ rw e (omega (arith, count-append q ps (p ∷ [])))
    | inr e ↦ rw e (omega (arith, tally-append_at q key p rest))
  ]

  by_url-Each :
      (ps : List ParsedPlan) (d : List (String × List ParsedPlan))
      → Each Of d
      → Each Of (by_url ps d)
  unfolding by_url
  by_url-Each [] d h = h
  by_url-Each (p ∷ ps) d h = by_url-Each ps _ (append_at-Each Of p.source_url p d refl h)

  tally-by_url :
      (q : ParsedPlan → Bool) (ps : List ParsedPlan) (d : List (String × List ParsedPlan))
      → tally q (by_url ps d) ≡ tally q d + count q ps
  unfolding by_url
  tally-by_url q [] d = omega arith
  tally-by_url q (p ∷ ps) d =
      ground
        (arith, tally-by_url q ps (append_at p.source_url p d), tally-append_at q p.source_url p d)

-- Each parsed plan is either bound, with its lanes as they are, or reported as unbound with its url and
-- its header, and none is lost or counted twice: the plans that the bound ones and the reported ones
-- come from are together the parsed plans, as often as they occur.
pub bind_plans-Split :
    (casefold : String → String) (parsed_plans : List ParsedPlan)
    (url_bindings : List (String × List Binding))
    → Split (λ q. count q parsed_plans) (bind_plans casefold parsed_plans url_bindings)
unfolding bind_plans
bind_plans-Split casefold parsed_plans url_bindings =
    recount _ _ _ (λ q. omega (arith, tally-by_url casefold q parsed_plans []))
      (bind_urls-Split casefold (λ q. 0) url_bindings (by_url parsed_plans [])
        (record { bound = []; unbound = [] }) (by_url-Each casefold parsed_plans [] tt)
        (record {
          bound_from = [];
          unbound_from = [];
          same_lanes = refl;
          same_headers = refl;
          counts = λ q. refl;
        }))
