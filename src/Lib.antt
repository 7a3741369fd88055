-- ===== src/Lib.antt =====
-- Verification of swimming-in-zurich (src/swimzh): what the program answers to the question where, when
-- and for whom one can swim, and how the documents it answers from are built and stored.
--
-- The program. Gold documents, which the ETL builds from scraped pages, are facilities: basins with
-- recurring rules, exceptions, closures, an operating season, a tariff, and lane plans. A query
-- (`find_swim_options`) walks over the facilities. For each basin with rules it asks the resolver for
-- the schedule of the day, turns each session into an option, and adds what the option needs:
-- eligibility of the person, price, distance, live occupancy, and what a parsed lane plan says of the
-- session. Facilities with no option get a status in place of silence; the roster supplies the
-- facilities that have no schedule at all.
--
-- Around it stand the parts that make the gold documents. The HTTP client turns every failure of a
-- fetch into a value, over a transport that caches responses on disk. The build resolves what the
-- providers scraped to pool ids, joins lane plans to the basins that declare their sheets, and composes
-- one facility per pool from a curated and a scraped one. The storage codecs write facilities, the
-- calendar and the catalog through DTOs, which the query reads back.
--
-- The files. Each names the source file at its top; paths are from the repository's root.
--   Base, Base/*          shared names, lists, the stable sort, frozensets of numbers
--   Text, Dates           strings, dates and times as the interpreter has them
--   Person, Access        src/swimzh/domain/person.py, access.py: `eligibility`
--   Closure, Holiday      src/swimzh/domain/closure.py, holiday.py: free text to codes
--   Calendar              src/swimzh/domain/calendar.py: the context of a day
--   Schedule              src/swimzh/domain/schedule.py: ranges, windows, exceptions, day schedules
--   Models                src/swimzh/domain/models.py, geo.py, lockers.py, rentals.py, admission.py, and
--                         the records of pricing.py and lane_plan.py that are stored
--   Resolver              src/swimzh/domain/resolver.py: `resolve_hours`
--   Lanes, Panel          src/swimzh/domain/lane_plan.py: `lane_availability_at`,
--                         `lane_availability_timeline`; `lane_day_view`, `club_roster`,
--                         `best_public_time`
--   Pricing, Catalog      src/swimzh/domain/pricing.py, catalog.py (with `slug`)
--   Registry              src/swimzh/domain/registry.py, core/normalize.py
--   Errors                src/swimzh/core/errors.py
--   Boundary              src/swimzh/boundary/curated_dto.py, mapping.py: the DTOs (Dto), their tokens,
--                         and the maps of schedules, lane plans and facilities, both ways
--   Storage               src/swimzh/storage/codec.py, calendar_codec.py, catalog_json.py
--   Silver                src/swimzh/etl/silver.py: Bindings (`build_url_bindings`), Join (`bind_plans`),
--                         Attach (`attach_lane_plans`)
--   Build                 src/swimzh/build/reconcile.py, compose.py
--   Cache                 src/swimzh/core/httpcache.py (Store, Transport), cache_tiers.py (Tiers)
--   Http                  src/swimzh/core/http.py: `HttpClient.get`
--   Lake                  src/swimzh/storage/lake.py, and etl/refresh.py (Refresh)
--   Etl                   src/swimzh/etl/lane_plans.py (Sheets), catalog.py (Roster)
--   Query                 src/swimzh/domain/query.py: Types (the records), Live (the providers), Statuses
--                         (facilities with no option), Visit (the loops over facilities and
--                         basins), Search (`find_swim_options`)
--   Tests                 a small city and the theorems at concrete inputs
-- The other children of a module hold its laws.
--
-- How the code is represented. A dataclass is a record, an enum or a union of dataclasses a data type.
-- An exception is `none`; a constructor with a check in `__post_init__` is a function into Option, such
-- as `time_range`. A chain that may raise is a do block, over Option (Base/Maybe) or over results (Errors/Chain). A
-- loop is a function over the list it walks, with the variables it changes as a
-- record: `Visit` and `Found` in Query/Visit, `Index` and `Joined` in Silver. The retry loop counts down
-- the attempts that are left. A dict is the list of its items. Each function by clauses is structurally recursive; the
-- one fuel is that of `decimal` in Text, which prints n with n + 1 steps, more than its digits. A time
-- is the microseconds since midnight, an instant the microseconds since the epoch. A frozenset of numbers is
-- an ascending list without repetition where the code builds it, and any list where the code only
-- reads it. Python's `sorted` is a stable insertion sort.
--
-- Parameters. What the source takes from elsewhere is an argument: `casefold`, the operations on floats
-- and the trigonometric functions (FloatOps), the number formats, the `repr` of a string, the time zone
-- (`to_zurich`, `zurich_clock`, `minus`), the clock and the two live providers; the JSON text of a DTO
-- (Pydantic), whose round trip is a hypothesis where it is used; httpx's client and transport with a
-- state of their own, and the hash, the bodies and the JSON text of the cache (Codecs, JsonText). Where
-- no hypothesis is named the theorems hold for all of them.
--
-- Not modelled: the providers and scrapers, the database, the files of the lake and its pull, the seed of
-- the identity spine, the other pipelines of the ETL, the command line, the web API, and the iOS
-- and web clients. They are input and output around the parts above, or rest on parsers, regular
-- expressions and databases of other packages. Of curated_dto.py the DTOs of the authored files and the
-- validation of fields are left out.
pub mod Base
pub mod Text
pub mod Dates
pub mod Person
pub mod Access
pub mod Closure
pub mod Holiday
pub mod Calendar
pub mod Schedule
pub mod Errors
pub mod Models
pub mod Registry
pub mod Resolver
pub mod Lanes
pub mod Panel
pub mod Pricing
pub mod Catalog
pub mod Query
pub mod Boundary
pub mod Storage
pub mod Silver
pub mod Build
pub mod Cache
pub mod Http
pub mod Lake
pub mod Etl
pub mod Tests
