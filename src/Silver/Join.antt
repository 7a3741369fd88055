-- ===== src/Silver/Join.antt =====
-- src/swimzh/etl/silver.py: `bind_plans`, its two arms, and `find_unmatched_sections`.
use swimming_in_zurich.Base.{
  ℕ, ◌&&◌, not, any, if◌then◌else◌, Option, none, some, List, [], ◌∷◌, ◌++◌, String, map, length,
}
use swimming_in_zurich.Text.{is_empty, is_within, join, decimal, normalize}
use swimming_in_zurich.Silver.{
  ParsedPlan, Binding, BoundPlan, UnboundPlan, UnmatchedSection, append_at, items_at,
}

-- The two lists that the arms append to.
pub record Joined : Type 0 where
  pub bound : List BoundPlan
  pub unbound : List UnboundPlan

abbrev pub bind_to : Binding → ParsedPlan → Joined → Joined
bind_to binding p joined = record {
  bound =
      joined.bound
      ++ (record { pool_id = binding.pool_id; basin_id = binding.basin_id; plan = p.plan } ∷ []);
  unbound = joined.unbound;
}

abbrev pub unbound_plan : String → String → ParsedPlan → UnboundPlan
unbound_plan url reason p = record { source_url = url; basin_hint = p.basin_hint; reason = reason }

-- `unbound.extend(UnboundPlan(url, p.basin_hint, reason) for p in plans)`
abbrev pub leave_unbound : String → String → List ParsedPlan → Joined → Joined
leave_unbound url reason plans joined = record {
  bound = joined.bound;
  unbound = joined.unbound ++ map (unbound_plan url reason) plans;
}

unfoldable pub split_reason : ℕ → String
unfolding join decimal
split_reason n = join "" ("single-basin source split into " ∷ decimal n ∷ " parsed sections" ∷ [])

-- `_bind_single`
unfoldable pub bind_single : String → List ParsedPlan → Binding → Joined → Joined
unfolding split_reason
bind_single url [] binding joined = leave_unbound url (split_reason 0) [] joined
bind_single url (p ∷ []) binding joined = bind_to binding p joined
bind_single url (p ∷ q ∷ rest) binding joined =
    leave_unbound url (split_reason (length (p ∷ q ∷ rest))) (p ∷ q ∷ rest) joined

abbrev pub with_token :
    (String → String) → Option String → Binding → List (String × Binding) → List (String × Binding)
with_token casefold none binding tokens = tokens
with_token casefold (some section) binding tokens = (normalize casefold section, binding) ∷ tokens

unfoldable pub tokens_of : (String → String) → List Binding → List (String × Binding)
unfolding normalize
tokens_of casefold [] = []
tokens_of casefold (b ∷ bs) = with_token casefold b.section b (tokens_of casefold bs)

-- `[b for token, b in tokens if token and token in hint]`
unfoldable pub matches_of : String → List (String × Binding) → List Binding
unfolding is_within
matches_of hint [] = []
matches_of hint ((token, b) ∷ rest) =
    if not (is_empty token) && is_within token hint
    then b ∷ matches_of hint rest
    else matches_of hint rest

unfoldable pub route : String → ParsedPlan → List Binding → Joined → Joined
route url p [] joined =
    leave_unbound url "no declared section token matches this parsed header" (p ∷ []) joined
route url p (b ∷ []) joined = bind_to b p joined
route url p (b ∷ c ∷ rest) joined =
    leave_unbound url "parsed header matches multiple section tokens (ambiguous)" (p ∷ []) joined

-- `_bind_stacked`: the loop over the plans, with the tokens.
unfoldable pub route_all :
    (String → String) → String → List (String × Binding) → List ParsedPlan → Joined → Joined
unfolding route matches_of normalize
route_all casefold url tokens [] joined = joined
route_all casefold url tokens (p ∷ ps) joined =
    route_all casefold url tokens ps
      (route url p (matches_of (normalize casefold p.basin_hint) tokens) joined)

unfoldable pub bind_stacked :
    (String → String) → String → List ParsedPlan → List Binding → Joined → Joined
unfolding route_all tokens_of
bind_stacked casefold url plans bindings joined =
    route_all casefold url (tokens_of casefold bindings) plans joined

abbrev pub bind_one :
    (String → String) → String → List ParsedPlan → Binding → Option String → Joined → Joined
bind_one casefold url plans b none joined = bind_single url plans b joined
bind_one casefold url plans b (some _) joined = bind_stacked casefold url plans (b ∷ []) joined

-- The body of the loop over the urls.
unfoldable pub bind_url :
    (String → String) → String → List ParsedPlan → List Binding → Joined → Joined
unfolding bind_single bind_stacked
bind_url casefold url plans [] joined =
    leave_unbound url "no basin declares this source url" plans joined
bind_url casefold url plans (b ∷ []) joined = bind_one casefold url plans b b.section joined
bind_url casefold url plans (b ∷ c ∷ rest) joined =
    bind_stacked casefold url plans (b ∷ c ∷ rest) joined

unfoldable pub bind_urls :
    (String → String)
    → List (String × List Binding)
    → List (String × List ParsedPlan)
    → Joined
    → Joined
unfolding bind_url items_at
bind_urls casefold url_bindings [] joined = joined
bind_urls casefold url_bindings ((url, plans) ∷ rest) joined =
    bind_urls casefold url_bindings rest
      (bind_url casefold url plans (items_at url url_bindings) joined)

-- `by_url`
unfoldable pub by_url :
    List ParsedPlan → List (String × List ParsedPlan) → List (String × List ParsedPlan)
unfolding append_at
by_url [] d = d
by_url (p ∷ ps) d = by_url ps (append_at p.source_url p d)

unfoldable pub bind_plans :
    (String → String) → List ParsedPlan → List (String × List Binding) → Joined
unfolding bind_urls by_url
bind_plans casefold parsed_plans url_bindings =
    bind_urls casefold url_bindings (by_url parsed_plans []) (record { bound = []; unbound = [] })

unfoldable pub headers_by_url :
    (String → String) → List ParsedPlan → List (String × List String) → List (String × List String)
unfolding append_at normalize
headers_by_url casefold [] d = d
headers_by_url casefold (p ∷ ps) d =
    headers_by_url casefold ps (append_at p.source_url (normalize casefold p.basin_hint) d)

abbrev pub unmatched_section :
    (String → String) → String → List String → Binding → Option String → List UnmatchedSection
unmatched_section casefold url headers b none = []
unmatched_section casefold url headers b (some section) =
    let token = normalize casefold section in
    if not (is_empty token) && not (any (is_within token) headers)
    then record { source_url = url; section = section; pool_id = b.pool_id; basin_id = b.basin_id }
      ∷ []
    else []

unfoldable pub unmatched_bindings :
    (String → String) → String → List String → List Binding → List UnmatchedSection
unfolding is_within normalize
unmatched_bindings casefold url headers [] = []
unmatched_bindings casefold url headers (b ∷ bs) =
    unmatched_section casefold url headers b b.section ++ unmatched_bindings casefold url headers bs

-- `if not headers: continue`
abbrev pub unmatched_url :
    (String → String) → String → List String → List Binding → List UnmatchedSection
unmatched_url casefold url [] bindings = []
unmatched_url casefold url (h ∷ hs) bindings = unmatched_bindings casefold url (h ∷ hs) bindings

unfoldable pub unmatched_urls :
    (String → String)
    → List (String × List String)
    → List (String × List Binding)
    → List UnmatchedSection
unfolding unmatched_bindings items_at
unmatched_urls casefold headers [] = []
unmatched_urls casefold headers ((url, bindings) ∷ rest) =
    unmatched_url casefold url (items_at url headers) bindings
    ++ unmatched_urls casefold headers rest

unfoldable pub find_unmatched_sections :
    (String → String) → List (String × List Binding) → List ParsedPlan → List UnmatchedSection
unfolding unmatched_urls headers_by_url
find_unmatched_sections casefold url_bindings parsed_plans =
    unmatched_urls casefold (headers_by_url casefold parsed_plans []) url_bindings
