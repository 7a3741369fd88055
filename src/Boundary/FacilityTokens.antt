-- ===== src/Boundary/FacilityTokens.antt =====
-- The token tables of src/swimzh/boundary/mapping.py and src/swimzh/storage/codec.py for what a
-- facility is made of, both directions (see ScheduleTokens).
use swimming_in_zurich.Base.{Option, some, List, [], ◌∷◌, String, ◌≡◌, refl}
use swimming_in_zurich.Closure.{lookup}
use swimming_in_zurich.Models.{
  PriceCategory, BasinKind, BasinSource, PlanConfidence, FeatureKind, LockerCategory,
  LockerMechanism, RentalKind, PoolKind,
}

unfoldable pub category_to : PriceCategory → String
category_to PriceCategory.child = "child"
category_to PriceCategory.youth = "youth"
category_to PriceCategory.adult = "adult"

abbrev pub category_table : List (String × PriceCategory)
category_table =
    ("child", PriceCategory.child)
    ∷ ("youth", PriceCategory.youth)
    ∷ ("adult", PriceCategory.adult)
    ∷ []

unfoldable pub category_from : String → Option PriceCategory
unfolding lookup
category_from token = lookup token category_table

pub category_from-to : (x : PriceCategory) → category_from (category_to x) ≡ some x
unfolding category_from category_to
category_from-to PriceCategory.child = refl
category_from-to PriceCategory.youth = refl
category_from-to PriceCategory.adult = refl

unfoldable pub basin_kind_to : BasinKind → String
basin_kind_to BasinKind.lap = "lap"
basin_kind_to BasinKind.non_swimmer = "non_swimmer"
basin_kind_to BasinKind.diving = "diving"
basin_kind_to BasinKind.vario = "vario"
basin_kind_to BasinKind.teaching = "teaching"
basin_kind_to BasinKind.children = "children"
basin_kind_to BasinKind.outdoor = "outdoor"
basin_kind_to BasinKind.other = "other"

abbrev pub basin_kind_table : List (String × BasinKind)
basin_kind_table =
    ("lap", BasinKind.lap)
    ∷ ("non_swimmer", BasinKind.non_swimmer)
    ∷ ("diving", BasinKind.diving)
    ∷ ("vario", BasinKind.vario)
    ∷ ("teaching", BasinKind.teaching)
    ∷ ("children", BasinKind.children)
    ∷ ("outdoor", BasinKind.outdoor)
    ∷ ("other", BasinKind.other)
    ∷ []

unfoldable pub basin_kind_from : String → Option BasinKind
unfolding lookup
basin_kind_from token = lookup token basin_kind_table

pub basin_kind_from-to : (x : BasinKind) → basin_kind_from (basin_kind_to x) ≡ some x
unfolding basin_kind_from basin_kind_to
basin_kind_from-to BasinKind.lap = refl
basin_kind_from-to BasinKind.non_swimmer = refl
basin_kind_from-to BasinKind.diving = refl
basin_kind_from-to BasinKind.vario = refl
basin_kind_from-to BasinKind.teaching = refl
basin_kind_from-to BasinKind.children = refl
basin_kind_from-to BasinKind.outdoor = refl
basin_kind_from-to BasinKind.other = refl

unfoldable pub basin_source_to : BasinSource → String
basin_source_to BasinSource.curated = "curated"
basin_source_to BasinSource.parsed_prose = "parsed_prose"

abbrev pub basin_source_table : List (String × BasinSource)
basin_source_table =
    ("curated", BasinSource.curated) ∷ ("parsed_prose", BasinSource.parsed_prose) ∷ []

unfoldable pub basin_source_from : String → Option BasinSource
unfolding lookup
basin_source_from token = lookup token basin_source_table

pub basin_source_from-to : (x : BasinSource) → basin_source_from (basin_source_to x) ≡ some x
unfolding basin_source_from basin_source_to
basin_source_from-to BasinSource.curated = refl
basin_source_from-to BasinSource.parsed_prose = refl

unfoldable pub plan_confidence_to : PlanConfidence → String
plan_confidence_to PlanConfidence.complete = "complete"
plan_confidence_to PlanConfidence.partial = "partial"

abbrev pub plan_confidence_table : List (String × PlanConfidence)
plan_confidence_table =
    ("complete", PlanConfidence.complete) ∷ ("partial", PlanConfidence.partial) ∷ []

unfoldable pub plan_confidence_from : String → Option PlanConfidence
unfolding lookup
plan_confidence_from token = lookup token plan_confidence_table

pub plan_confidence_from-to :
    (x : PlanConfidence) → plan_confidence_from (plan_confidence_to x) ≡ some x
unfolding plan_confidence_from plan_confidence_to
plan_confidence_from-to PlanConfidence.complete = refl
plan_confidence_from-to PlanConfidence.partial = refl

unfoldable pub feature_kind_to : FeatureKind → String
feature_kind_to FeatureKind.sauna = "sauna"
feature_kind_to FeatureKind.steam_bath = "steam_bath"
feature_kind_to FeatureKind.wellness = "wellness"
feature_kind_to FeatureKind.slide = "slide"
feature_kind_to FeatureKind.hot_tub = "hot_tub"
feature_kind_to FeatureKind.terrace = "terrace"
feature_kind_to FeatureKind.rest = "rest"
feature_kind_to FeatureKind.gastronomy = "gastronomy"

abbrev pub feature_kind_table : List (String × FeatureKind)
feature_kind_table =
    ("sauna", FeatureKind.sauna)
    ∷ ("steam_bath", FeatureKind.steam_bath)
    ∷ ("wellness", FeatureKind.wellness)
    ∷ ("slide", FeatureKind.slide)
    ∷ ("hot_tub", FeatureKind.hot_tub)
    ∷ ("terrace", FeatureKind.terrace)
    ∷ ("rest", FeatureKind.rest)
    ∷ ("gastronomy", FeatureKind.gastronomy)
    ∷ []

unfoldable pub feature_kind_from : String → Option FeatureKind
unfolding lookup
feature_kind_from token = lookup token feature_kind_table

pub feature_kind_from-to : (x : FeatureKind) → feature_kind_from (feature_kind_to x) ≡ some x
unfolding feature_kind_from feature_kind_to
feature_kind_from-to FeatureKind.sauna = refl
feature_kind_from-to FeatureKind.steam_bath = refl
feature_kind_from-to FeatureKind.wellness = refl
feature_kind_from-to FeatureKind.slide = refl
feature_kind_from-to FeatureKind.hot_tub = refl
feature_kind_from-to FeatureKind.terrace = refl
feature_kind_from-to FeatureKind.rest = refl
feature_kind_from-to FeatureKind.gastronomy = refl

unfoldable pub locker_category_to : LockerCategory → String
locker_category_to LockerCategory.wardrobe = "wardrobe"
locker_category_to LockerCategory.valuables = "valuables"
locker_category_to LockerCategory.laundry = "laundry"

abbrev pub locker_category_table : List (String × LockerCategory)
locker_category_table =
    ("wardrobe", LockerCategory.wardrobe)
    ∷ ("valuables", LockerCategory.valuables)
    ∷ ("laundry", LockerCategory.laundry)
    ∷ []

unfoldable pub locker_category_from : String → Option LockerCategory
unfolding lookup
locker_category_from token = lookup token locker_category_table

pub locker_category_from-to :
    (x : LockerCategory) → locker_category_from (locker_category_to x) ≡ some x
unfolding locker_category_from locker_category_to
locker_category_from-to LockerCategory.wardrobe = refl
locker_category_from-to LockerCategory.valuables = refl
locker_category_from-to LockerCategory.laundry = refl

unfoldable pub locker_mechanism_to : LockerMechanism → String
locker_mechanism_to LockerMechanism.coin = "coin"
locker_mechanism_to LockerMechanism.key = "key"
locker_mechanism_to LockerMechanism.chip = "chip"
locker_mechanism_to LockerMechanism.wristband = "wristband"
locker_mechanism_to LockerMechanism.other = "other"

abbrev pub locker_mechanism_table : List (String × LockerMechanism)
locker_mechanism_table =
    ("coin", LockerMechanism.coin)
    ∷ ("key", LockerMechanism.key)
    ∷ ("chip", LockerMechanism.chip)
    ∷ ("wristband", LockerMechanism.wristband)
    ∷ ("other", LockerMechanism.other)
    ∷ []

unfoldable pub locker_mechanism_from : String → Option LockerMechanism
unfolding lookup
locker_mechanism_from token = lookup token locker_mechanism_table

pub locker_mechanism_from-to :
    (x : LockerMechanism) → locker_mechanism_from (locker_mechanism_to x) ≡ some x
unfolding locker_mechanism_from locker_mechanism_to
locker_mechanism_from-to LockerMechanism.coin = refl
locker_mechanism_from-to LockerMechanism.key = refl
locker_mechanism_from-to LockerMechanism.chip = refl
locker_mechanism_from-to LockerMechanism.wristband = refl
locker_mechanism_from-to LockerMechanism.other = refl

unfoldable pub rental_kind_to : RentalKind → String
rental_kind_to RentalKind.towel = "towel"
rental_kind_to RentalKind.swimwear = "swimwear"
rental_kind_to RentalKind.goggles = "goggles"
rental_kind_to RentalKind.cabin = "cabin"
rental_kind_to RentalKind.sunlounger = "sunlounger"
rental_kind_to RentalKind.parasol = "parasol"
rental_kind_to RentalKind.other = "other"

abbrev pub rental_kind_table : List (String × RentalKind)
rental_kind_table =
    ("towel", RentalKind.towel)
    ∷ ("swimwear", RentalKind.swimwear)
    ∷ ("goggles", RentalKind.goggles)
    ∷ ("cabin", RentalKind.cabin)
    ∷ ("sunlounger", RentalKind.sunlounger)
    ∷ ("parasol", RentalKind.parasol)
    ∷ ("other", RentalKind.other)
    ∷ []

unfoldable pub rental_kind_from : String → Option RentalKind
unfolding lookup
rental_kind_from token = lookup token rental_kind_table

pub rental_kind_from-to : (x : RentalKind) → rental_kind_from (rental_kind_to x) ≡ some x
unfolding rental_kind_from rental_kind_to
rental_kind_from-to RentalKind.towel = refl
rental_kind_from-to RentalKind.swimwear = refl
rental_kind_from-to RentalKind.goggles = refl
rental_kind_from-to RentalKind.cabin = refl
rental_kind_from-to RentalKind.sunlounger = refl
rental_kind_from-to RentalKind.parasol = refl
rental_kind_from-to RentalKind.other = refl

unfoldable pub pool_kind_to : PoolKind → String
pool_kind_to PoolKind.indoor = "indoor"
pool_kind_to PoolKind.outdoor = "outdoor"
pool_kind_to PoolKind.river = "river"
pool_kind_to PoolKind.lake = "lake"
pool_kind_to PoolKind.school = "school"
pool_kind_to PoolKind.paddling = "paddling"
pool_kind_to PoolKind.thermal = "thermal"

abbrev pub pool_kind_table : List (String × PoolKind)
pool_kind_table =
    ("indoor", PoolKind.indoor)
    ∷ ("outdoor", PoolKind.outdoor)
    ∷ ("river", PoolKind.river)
    ∷ ("lake", PoolKind.lake)
    ∷ ("school", PoolKind.school)
    ∷ ("paddling", PoolKind.paddling)
    ∷ ("thermal", PoolKind.thermal)
    ∷ []

unfoldable pub pool_kind_from : String → Option PoolKind
unfolding lookup
pool_kind_from token = lookup token pool_kind_table

pub pool_kind_from-to : (x : PoolKind) → pool_kind_from (pool_kind_to x) ≡ some x
unfolding pool_kind_from pool_kind_to
pool_kind_from-to PoolKind.indoor = refl
pool_kind_from-to PoolKind.outdoor = refl
pool_kind_from-to PoolKind.river = refl
pool_kind_from-to PoolKind.lake = refl
pool_kind_from-to PoolKind.school = refl
pool_kind_from-to PoolKind.paddling = refl
pool_kind_from-to PoolKind.thermal = refl
