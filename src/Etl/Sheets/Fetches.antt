-- ===== src/Etl/Sheets/Fetches.antt =====
-- What a run over the discovered sheets reports (src/swimzh/etl/lane_plans.py).
use swimming_in_zurich.Base.{List, [], ◌∷◌, String, ◌≡◌, ◌⊎◌, In}
use swimming_in_zurich.Errors.{Result, ok, err, ProviderError}
use swimming_in_zurich.Silver.{ParsedPlan}
use swimming_in_zurich.Base.Distinct.{Distinct}
use swimming_in_zurich.Etl.Sheets.{DiscoveredLink, LanePlanMiss, LanePlanReport, stamp_url}

abbrev pub url_of_link : DiscoveredLink → String
url_of_link link = link.url

-- The second report has what the first has.
abbrev Grows : LanePlanReport → LanePlanReport → Type 0
Grows r r2 =
    ((p : ParsedPlan) → In p r.plans → In p r2.plans)
    × ((m : LanePlanMiss) → In m r.misses → In m r2.misses)

module _ {W : Type 0} (scrape_sheet : String → W → Result (List ParsedPlan) ProviderError × W) where
  -- One scrape of each url, one after the other: the world that each of them sees, and the last.
  abbrev pub seen_by : List String → W → List (String × W)
  seen_by [] world = []
  seen_by (url ∷ urls) world = (url, world) ∷ seen_by urls (scrape_sheet url world).1

  abbrev pub world_after : List String → W → W
  world_after [] world = world
  world_after (url ∷ urls) world = world_after urls (scrape_sheet url world).1

  -- The plans of the scrape of a url in a world are in the report with the url, or its cause is.
  abbrev pub Reported : LanePlanReport → String × W → Type 0
  Reported report (url, world) =
      (((plans : List ParsedPlan) × ((scrape_sheet url world).0 ≡ ok plans)
          × ((p : ParsedPlan) → In p plans → In (stamp_url url p) report.plans))
        ⊎ ((cause : ProviderError) × ((scrape_sheet url world).0 ≡ err cause)
            × In (record { source_url = url; cause = cause }) report.misses))

  -- Each plan and each miss is of one of the urls.
  abbrev pub Within : List String → LanePlanReport → Type 0
  Within urls report =
      ((p : ParsedPlan) → In p report.plans → In p.source_url urls)
      × ((m : LanePlanMiss) → In m report.misses → In m.source_url urls)
