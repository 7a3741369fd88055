-- ===== src/Query/Roster.antt =====
-- What an answer of `find_swim_options` (src/swimzh/domain/query.py) says of a pool of the roster.
use swimming_in_zurich.Base.{true, false, none, some, List, String, ◌≡◌, ◌⊎◌, In}
use swimming_in_zurich.Models.{Facility}
use swimming_in_zurich.Catalog.{RosterEntry}
use swimming_in_zurich.Query.Types.{FacilityStatus}
use swimming_in_zurich.Query.Statuses.{freshness_status, is_scraped, is_scheduled}
use swimming_in_zurich.Query.Codes.{FromLoop}

-- A facility of the pool has rules or a season, so that the roster says nothing of it.
abbrev pub Answered : List Facility → String → Type 0
Answered facilities pool_id =
    (f : Facility) × In f facilities × (is_scheduled f ≡ true) × (pool_id ≡ f.identity.facility_id)

-- The status names the pool, says why it has no schedule, and does not say that it is closed.
abbrev pub Explains : RosterEntry → FacilityStatus → Type 0
Explains row s =
    (s.facility_id ≡ row.entry.pool_id)
    × (freshness_status row.freshness ≡ some (s.status, s.code))
    × (s.closure ≡ none)

-- What is known of a status: the loop over the facilities made it, or it explains a pool of the roster
-- that is not scraped and has no facility with rules or a season.
abbrev pub Accounted : List Facility → List RosterEntry → FacilityStatus → Type 0
Accounted fs roster s =
    FromLoop s
    ⊎ ((row : RosterEntry) × In row roster
        × (is_scraped row.freshness ≡ false)
        × (Answered fs row.entry.pool_id → ⊥)
        × Explains row s)
