-- ===== src/Etl/Sheets.antt =====
-- src/swimzh/etl/lane_plans.py: which lane sheets are fetched, and what becomes of the authored ones.
-- Fetching and parsing one sheet is a parameter with a state of its own.
pub mod Fetches
use swimming_in_zurich.Base.{
  Bool, true, false, ◌&&◌, ◌||◌, not, any, keep, if◌then◌else◌, Option, none, some, List, [], ◌∷◌,
  ◌++◌, String, str_eq, map,
}
use swimming_in_zurich.Errors.{Result, ok, err, ProviderError}
use swimming_in_zurich.Models.{LanePlanSource, Basin, Facility}
use swimming_in_zurich.Silver.{ParsedPlan, BasinRef, ref_eq}

-- providers/page_provider.py
pub record DiscoveredLink : Type 0 where
  pub pool_id : String
  pub url : String

pub record UndiscoveredSource : Type 0 where
  pub pool_id : String
  pub url : String

pub record LanePlanMiss : Type 0 where
  pub source_url : String
  pub cause : ProviderError

pub record SplitMisses : Type 0 where
  pub bound : List LanePlanMiss
  pub unbound : List LanePlanMiss

pub record LanePlanReport : Type 0 where
  pub plans : List ParsedPlan
  pub misses : List LanePlanMiss

-- `seen.setdefault(url, None)` of a dict that is used as an ordered set.
unfoldable pub set_default : String → List String → List String
set_default url seen = if any (str_eq url) seen then seen else seen ++ (url ∷ [])

unfoldable pub fetch_from : List DiscoveredLink → List String → List String
unfolding set_default
fetch_from [] seen = seen
fetch_from (link ∷ links) seen = fetch_from links (set_default link.url seen)

unfoldable pub fetch_set : List DiscoveredLink → List String
unfolding fetch_from
fetch_set links = fetch_from links []

-- The sources that the loop of `undiscovered_authored` has put out, which are the keys it has seen.
abbrev pub out_ref : UndiscoveredSource → BasinRef
out_ref u = (u.pool_id, u.url)

abbrev pub note_source :
    List DiscoveredLink
    → String
    → Option LanePlanSource
    → List UndiscoveredSource
    → List UndiscoveredSource
note_source links pool none out = out
note_source links pool (some source) out =
    if any (λ (link : DiscoveredLink). str_eq source.url link.url) links
      || any (λ u. ref_eq (pool, source.url) (out_ref u)) out
    then out
    else out ++ (record { pool_id = pool; url = source.url } ∷ [])

unfoldable pub note_basins :
    List DiscoveredLink → String → List Basin → List UndiscoveredSource → List UndiscoveredSource
unfolding ref_eq
note_basins links pool [] out = out
note_basins links pool (basin ∷ basins) out =
    note_basins links pool basins (note_source links pool basin.lane_plan_source out)

unfoldable pub note_facilities :
    List DiscoveredLink → List Facility → List UndiscoveredSource → List UndiscoveredSource
unfolding note_basins
note_facilities links [] out = out
note_facilities links (facility ∷ facilities) out =
    note_facilities links facilities
      (note_basins links facility.identity.facility_id facility.basins out)

unfoldable pub undiscovered_authored : List Facility → List DiscoveredLink → List UndiscoveredSource
unfolding note_facilities
undiscovered_authored facilities links = note_facilities links facilities []

abbrev authored_url : Option LanePlanSource → List String
authored_url none = []
authored_url (some source) = source.url ∷ []

unfoldable pub urls_of_basins : List Basin → List String
urls_of_basins [] = []
urls_of_basins (b ∷ bs) = authored_url b.lane_plan_source ++ urls_of_basins bs

-- `authored_lane_urls`; the set is the list of its elements.
unfoldable pub authored_lane_urls : List Facility → List String
unfolding urls_of_basins
authored_lane_urls [] = []
authored_lane_urls (f ∷ fs) = urls_of_basins f.basins ++ authored_lane_urls fs

abbrev pub is_authored : List String → LanePlanMiss → Bool
is_authored authored m = any (str_eq m.source_url) authored

unfoldable pub split_misses : List LanePlanMiss → List String → SplitMisses
split_misses misses authored = record {
  bound = keep (is_authored authored) misses;
  unbound = keep (λ m. not (is_authored authored m)) misses;
}

-- `replace(p, source_url=url)`
abbrev pub stamp_url : String → ParsedPlan → ParsedPlan
stamp_url url p = record { basin_hint = p.basin_hint; plan = p.plan; source_url = url }

module _ {W : Type 0} (scrape_sheet : String → W → Result (List ParsedPlan) ProviderError × W) where
  abbrev pub take_sheet :
      String → Result (List ParsedPlan) ProviderError → LanePlanReport → LanePlanReport
  take_sheet url (ok plans) report = record {
    plans = report.plans ++ map (stamp_url url) plans;
    misses = report.misses;
  }
  take_sheet url (err cause) report = record {
    plans = report.plans;
    misses = report.misses ++ (record { source_url = url; cause = cause } ∷ []);
  }

  -- The loop over the urls.
  unfoldable pub scrape_urls : List String → LanePlanReport → W → LanePlanReport × W
  scrape_urls [] report world = (report, world)
  scrape_urls (url ∷ urls) report world =
      let (result, next) = scrape_sheet url world in
      scrape_urls urls (take_sheet url result report) next

  unfoldable pub scrape_lane_plans : List DiscoveredLink → W → LanePlanReport × W
  unfolding scrape_urls fetch_set
  scrape_lane_plans links world =
      scrape_urls (fetch_set links) (record { plans = []; misses = [] }) world
