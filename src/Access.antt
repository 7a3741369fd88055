-- ===== src/Access.antt =====
-- src/swimzh/domain/access.py: session access rules (a tagged union) and explainable eligibility.
pub mod Rules
pub mod Legend
use swimming_in_zurich.Base.{
  ℕ, Bool, true, false, Option, none, some, List, [], ◌∷◌, String, ltb, leb, if◌then◌else◌, ◌==◌,
  str_eq, ◌&&◌,
}
use swimming_in_zurich.Person.{Person, Gender, female, male, diverse}

pub data SessionAccess : Type 0 where
  public_swim : SessionAccess
  lane_swim : (note : String) → SessionAccess
  family_time : (note : String) → SessionAccess
  women_only : (note : String) → SessionAccess
  seniors_only : (min_age : ℕ) → SessionAccess
  school_reserved : SessionAccess
  club_reserved : (club : String) → SessionAccess
  adults_only : (min_age : ℕ) (note : String) → SessionAccess
  girls_only : SessionAccess
  gender_diverse : (min_age : ℕ) → SessionAccess
  accompanied_children : SessionAccess

-- `a == b` as the dataclasses define it: the class and each field.
unfoldable pub access_eq : SessionAccess → SessionAccess → Bool
access_eq public_swim public_swim = true
access_eq (lane_swim a) (lane_swim b) = str_eq a b
access_eq (family_time a) (family_time b) = str_eq a b
access_eq (women_only a) (women_only b) = str_eq a b
access_eq (seniors_only a) (seniors_only b) = a == b
access_eq school_reserved school_reserved = true
access_eq (club_reserved a) (club_reserved b) = str_eq a b
access_eq (adults_only a s) (adults_only b t) = a == b && str_eq s t
access_eq girls_only girls_only = true
access_eq (gender_diverse a) (gender_diverse b) = a == b
access_eq accompanied_children accompanied_children = true
access_eq _ _ = false

-- `isinstance(access, PublicSwim)`
unfoldable pub is_public : SessionAccess → Bool
is_public public_swim = true
is_public _ = false

-- The message identity of an eligibility outcome.
pub data ReasonCode : Type 0 where
  public lane_swim family : ReasonCode
  women_only_welcome women_only_excluded women_only_confirm women_only_needs_gender : ReasonCode
  seniors_only_welcome seniors_only_too_young seniors_only_needs_age : ReasonCode
  adults_only_welcome adults_only_too_young adults_only_needs_age : ReasonCode
  school_reserved club_reserved : ReasonCode
  girls_only_excluded girls_only_confirm girls_only_needs_gender : ReasonCode
  gender_diverse_too_young gender_diverse_confirm : ReasonCode
  accompanied_children_confirm : ReasonCode

-- The values of `params: Mapping[str, str | int]`; the keys that the code writes are `club` and
-- `min_age`, one at most.
pub data Params : Type 0 where
  no_params : Params
  club : String → Params
  min_age : ℕ → Params

pub record EligibilityResult : Type 0 where
  pub allowed : Bool
  pub rule : String
  pub code : ReasonCode
  pub params : Params

abbrev pub outcome : Bool → String → ReasonCode → Params → EligibilityResult
outcome allowed rule code params = record {
  allowed = allowed;
  rule = rule;
  code = code;
  params = params;
}

women_only_for : Option Gender → EligibilityResult
women_only_for (some female) = outcome true "women-only" ReasonCode.women_only_welcome no_params
women_only_for (some male) = outcome false "women-only" ReasonCode.women_only_excluded no_params
women_only_for (some diverse) = outcome false "women-only" ReasonCode.women_only_confirm no_params
women_only_for none = outcome false "women-only" ReasonCode.women_only_needs_gender no_params

girls_only_for : Option Gender → EligibilityResult
girls_only_for (some female) = outcome false "girls-only" ReasonCode.girls_only_confirm no_params
girls_only_for (some male) = outcome false "girls-only" ReasonCode.girls_only_excluded no_params
girls_only_for (some diverse) = outcome false "girls-only" ReasonCode.girls_only_excluded no_params
girls_only_for none = outcome false "girls-only" ReasonCode.girls_only_needs_gender no_params

gender_diverse_for : Option ℕ → ℕ → EligibilityResult
gender_diverse_for (some age) bound =
    if ltb age bound
    then outcome false "gender-diverse" ReasonCode.gender_diverse_too_young (min_age bound)
    else outcome false "gender-diverse" ReasonCode.gender_diverse_confirm (min_age bound)
gender_diverse_for none bound =
    outcome false "gender-diverse" ReasonCode.gender_diverse_confirm (min_age bound)

adults_only_for : Option ℕ → ℕ → EligibilityResult
adults_only_for none bound =
    outcome false "adults-only" ReasonCode.adults_only_needs_age (min_age bound)
adults_only_for (some age) bound =
    if leb bound age
    then outcome true "adults-only" ReasonCode.adults_only_welcome (min_age bound)
    else outcome false "adults-only" ReasonCode.adults_only_too_young (min_age bound)

seniors_only_for : Option ℕ → ℕ → EligibilityResult
seniors_only_for none bound =
    outcome false "seniors-only" ReasonCode.seniors_only_needs_age (min_age bound)
seniors_only_for (some age) bound =
    if leb bound age
    then outcome true "seniors-only" ReasonCode.seniors_only_welcome (min_age bound)
    else outcome false "seniors-only" ReasonCode.seniors_only_too_young (min_age bound)

-- `{"club": club} if club else {}`
club_params : String → Params
club_params name = if str_eq name "" then no_params else club name

unfoldable pub eligibility : Person → SessionAccess → EligibilityResult
unfolding women_only_for girls_only_for gender_diverse_for adults_only_for seniors_only_for
    club_params
eligibility person public_swim = outcome true "public" ReasonCode.public no_params
eligibility person (lane_swim _) = outcome true "lane-swim" ReasonCode.lane_swim no_params
eligibility person (family_time _) = outcome true "family" ReasonCode.family no_params
eligibility person (women_only _) = women_only_for person.gender
eligibility person (seniors_only bound) = seniors_only_for person.age bound
eligibility person school_reserved =
    outcome false "school-reserved" ReasonCode.school_reserved no_params
eligibility person (club_reserved name) =
    outcome false "club-reserved" ReasonCode.club_reserved (club_params name)
eligibility person (adults_only bound _) = adults_only_for person.age bound
eligibility person girls_only = girls_only_for person.gender
eligibility person (gender_diverse bound) = gender_diverse_for person.age bound
eligibility person accompanied_children =
    outcome false "accompanied-children" ReasonCode.accompanied_children_confirm no_params
