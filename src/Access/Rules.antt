-- ===== src/Access/Rules.antt =====
-- What `eligibility` (src/swimzh/domain/access.py) promises: an independent description of who is
-- welcome, what the message codes carry, and how missing details are treated.
use swimming_in_zurich.Base.{
  ℕ, ◌≤◌, Bool, true, false, Option, none, some, String, ◌≡◌, refl, ◌↔◌, ◌⊎◌, arith,
}
use swimming_in_zurich.Person.{Person, Gender, female, male, diverse}
use swimming_in_zurich.Access.{
  SessionAccess, public_swim, lane_swim, family_time, women_only, seniors_only, adults_only,
  ReasonCode, EligibilityResult, eligibility,
}

-- Who may attend which session, by rules and with no reference to the code.
pub data Welcomes (p : Person) : SessionAccess → Type 0 where
  anyone : Welcomes p public_swim
  any_lane : {note : String} → Welcomes p (lane_swim note)
  any_family : {note : String} → Welcomes p (family_time note)
  woman : {note : String} → p.gender ≡ some female → Welcomes p (women_only note)
  senior : {bound : ℕ} (age : ℕ) → p.age ≡ some age → bound ≤ age → Welcomes p (seniors_only bound)
  adult :
      {bound : ℕ} {note : String} (age : ℕ)
      → p.age ≡ some age
      → bound ≤ age
      → Welcomes p (adults_only bound note)

allowed→Welcomes :
    (g : Option Gender) (a : Option ℕ) (access : SessionAccess)
    → (eligibility (record { gender = g; age = a }) access).allowed ≡ true
    → Welcomes (record { gender = g; age = a }) access
unfolding eligibility
allowed→Welcomes g a SessionAccess.public_swim h = anyone
allowed→Welcomes g a (SessionAccess.lane_swim _) h = any_lane
allowed→Welcomes g a (SessionAccess.family_time _) h = any_family
allowed→Welcomes (some female) a (SessionAccess.women_only _) h = woman refl
allowed→Welcomes (some male) a (SessionAccess.women_only _) h = absurd (cc)
allowed→Welcomes (some diverse) a (SessionAccess.women_only _) h = absurd (cc)
allowed→Welcomes none a (SessionAccess.women_only _) h = absurd (cc)
allowed→Welcomes g none (SessionAccess.seniors_only _) h = absurd (cc)
allowed→Welcomes g (some x) (SessionAccess.seniors_only b) h = senior x refl (ground arith)
allowed→Welcomes g none (SessionAccess.adults_only _ _) h = absurd (cc)
allowed→Welcomes g (some x) (SessionAccess.adults_only b _) h = adult x refl (ground arith)
allowed→Welcomes g a SessionAccess.school_reserved h = absurd (cc)
allowed→Welcomes g a (SessionAccess.club_reserved _) h = absurd (cc)
allowed→Welcomes g a SessionAccess.girls_only h = absurd (ground arith)
allowed→Welcomes g a (SessionAccess.gender_diverse _) h = absurd (ground arith)
allowed→Welcomes g a SessionAccess.accompanied_children h = absurd (cc)

Welcomes→allowed :
    {p : Person} {access : SessionAccess}
    → Welcomes p access
    → (eligibility p access).allowed ≡ true
unfolding eligibility
Welcomes→allowed anyone = refl
Welcomes→allowed any_lane = refl
Welcomes→allowed any_family = refl
Welcomes→allowed (woman e) = ground arith
Welcomes→allowed (senior age e h) = ground arith
Welcomes→allowed (adult age e h) = ground arith

-- A person is allowed exactly when one of the rules of `Welcomes` lets them in.
pub eligibility-iff-Welcomes :
    (p : Person) (access : SessionAccess)
    → ((eligibility p access).allowed ≡ true) ↔ Welcomes p access
eligibility-iff-Welcomes p access = (allowed→Welcomes p.gender p.age access, Welcomes→allowed)

-- What a message says of the outcome: whether it admits, and which access type it belongs to.
abbrev pub code_allows : ReasonCode → Bool
code_allows ReasonCode.public = true
code_allows ReasonCode.lane_swim = true
code_allows ReasonCode.family = true
code_allows ReasonCode.women_only_welcome = true
code_allows ReasonCode.seniors_only_welcome = true
code_allows ReasonCode.adults_only_welcome = true
code_allows _ = false

abbrev pub code_rule : ReasonCode → String
code_rule ReasonCode.public = "public"
code_rule ReasonCode.lane_swim = "lane-swim"
code_rule ReasonCode.family = "family"
code_rule ReasonCode.women_only_welcome = "women-only"
code_rule ReasonCode.women_only_excluded = "women-only"
code_rule ReasonCode.women_only_confirm = "women-only"
code_rule ReasonCode.women_only_needs_gender = "women-only"
code_rule ReasonCode.seniors_only_welcome = "seniors-only"
code_rule ReasonCode.seniors_only_too_young = "seniors-only"
code_rule ReasonCode.seniors_only_needs_age = "seniors-only"
code_rule ReasonCode.adults_only_welcome = "adults-only"
code_rule ReasonCode.adults_only_too_young = "adults-only"
code_rule ReasonCode.adults_only_needs_age = "adults-only"
code_rule ReasonCode.school_reserved = "school-reserved"
code_rule ReasonCode.club_reserved = "club-reserved"
code_rule ReasonCode.girls_only_excluded = "girls-only"
code_rule ReasonCode.girls_only_confirm = "girls-only"
code_rule ReasonCode.girls_only_needs_gender = "girls-only"
code_rule ReasonCode.gender_diverse_too_young = "gender-diverse"
code_rule ReasonCode.gender_diverse_confirm = "gender-diverse"
code_rule ReasonCode.accompanied_children_confirm = "accompanied-children"

abbrev IsKeyed : EligibilityResult → Type 0
IsKeyed r = (r.allowed ≡ code_allows r.code) × (r.rule ≡ code_rule r.code)

keyed :
    (g : Option Gender) (a : Option ℕ) (access : SessionAccess)
    → IsKeyed (eligibility (record { gender = g; age = a }) access)
unfolding eligibility
keyed (some female) a (SessionAccess.women_only _) = (refl, refl)
keyed (some male) a (SessionAccess.women_only _) = (refl, refl)
keyed (some diverse) a (SessionAccess.women_only _) = (refl, refl)
keyed none a (SessionAccess.women_only _) = (refl, refl)
keyed (some female) a SessionAccess.girls_only = (refl, refl)
keyed (some male) a SessionAccess.girls_only = (refl, refl)
keyed (some diverse) a SessionAccess.girls_only = (refl, refl)
keyed none a SessionAccess.girls_only = (refl, refl)
keyed g (some x) (SessionAccess.seniors_only b) = ground arith
keyed g none (SessionAccess.seniors_only b) = (refl, refl)
keyed g (some x) (SessionAccess.adults_only b _) = ground arith
keyed g none (SessionAccess.adults_only b _) = (refl, refl)
keyed g (some x) (SessionAccess.gender_diverse b) = ground arith
keyed g none (SessionAccess.gender_diverse b) = (refl, refl)
keyed g a SessionAccess.public_swim = (refl, refl)
keyed g a (SessionAccess.lane_swim _) = (refl, refl)
keyed g a (SessionAccess.family_time _) = (refl, refl)
keyed g a SessionAccess.school_reserved = (refl, refl)
keyed g a (SessionAccess.club_reserved _) = (refl, refl)
keyed g a SessionAccess.accompanied_children = (refl, refl)

-- The message code determines the verdict and the access type: no code is used for both a welcome
-- and a refusal, nor for two access types.
pub eligibility_code :
    (p : Person) (access : SessionAccess)
    → ((eligibility p access).allowed ≡ code_allows (eligibility p access).code)
      × ((eligibility p access).rule ≡ code_rule (eligibility p access).code)
eligibility_code p access = keyed p.gender p.age access

-- `q` is `p` with details filled in: what `p` states, `q` states too.
abbrev pub Refines : Person → Person → Type 0
Refines p q = ((p.gender ≡ none) ⊎ (p.gender ≡ q.gender)) × ((p.age ≡ none) ⊎ (p.age ≡ q.age))

refine :
    (g : Option Gender) (a : Option ℕ) (q : Person) (access : SessionAccess)
    → (g ≡ none) ⊎ (g ≡ q.gender)
    → (a ≡ none) ⊎ (a ≡ q.age)
    → (eligibility (record { gender = g; age = a }) access).allowed ≡ true
    → eligibility q access ≡ eligibility (record { gender = g; age = a }) access
unfolding eligibility
refine g a q SessionAccess.public_swim i j h = refl
refine g a q (SessionAccess.lane_swim _) i j h = refl
refine g a q (SessionAccess.family_time _) i j h = refl
refine g a q (SessionAccess.women_only _) i j h = ground arith
refine g a q (SessionAccess.seniors_only b) i j h = ground arith
refine g a q (SessionAccess.adults_only b _) i j h = ground arith
refine g a q SessionAccess.school_reserved i j h = refl
refine g a q (SessionAccess.club_reserved _) i j h = refl
refine g a q SessionAccess.girls_only i j h = absurd (ground arith)
refine g a q (SessionAccess.gender_diverse _) i j h = absurd (ground arith)
refine g a q SessionAccess.accompanied_children i j h = refl

-- A welcome given on partial details stands, result and all, whatever the missing details are.
pub eligibility-Refines :
    (p q : Person) (access : SessionAccess)
    → Refines p q
    → (eligibility p access).allowed ≡ true
    → eligibility q access ≡ eligibility p access
eligibility-Refines p q access r h = refine p.gender p.age q access r.0 r.1 h

-- The codes of a denial that is final, and not for want of a detail or a confirmation.
abbrev pub code_excludes : ReasonCode → Bool
code_excludes ReasonCode.women_only_excluded = true
code_excludes ReasonCode.girls_only_excluded = true
code_excludes ReasonCode.seniors_only_too_young = true
code_excludes ReasonCode.adults_only_too_young = true
code_excludes ReasonCode.gender_diverse_too_young = true
code_excludes ReasonCode.school_reserved = true
code_excludes ReasonCode.club_reserved = true
code_excludes _ = false

-- A person who states nothing is told that they are excluded only by a session that is reserved: one
-- that denies everyone, whatever they state, with the same result.
pub eligibility_unstated :
    (access : SessionAccess) (p : Person)
    → code_excludes (eligibility (record { gender = none; age = none }) access).code ≡ true
    → (eligibility p access ≡ eligibility (record { gender = none; age = none }) access)
      × ((eligibility p access).allowed ≡ false)
unfolding eligibility
eligibility_unstated SessionAccess.public_swim p h = absurd (cc h)
eligibility_unstated (SessionAccess.lane_swim _) p h = absurd (cc h)
eligibility_unstated (SessionAccess.family_time _) p h = absurd (cc h)
eligibility_unstated (SessionAccess.women_only _) p h = absurd (cc h)
eligibility_unstated (SessionAccess.seniors_only _) p h = absurd (cc h)
eligibility_unstated (SessionAccess.adults_only _ _) p h = absurd (cc h)
eligibility_unstated SessionAccess.girls_only p h = absurd (cc h)
eligibility_unstated (SessionAccess.gender_diverse _) p h = absurd (cc h)
eligibility_unstated SessionAccess.accompanied_children p h = absurd (cc h)
eligibility_unstated SessionAccess.school_reserved p h = (refl, refl)
eligibility_unstated (SessionAccess.club_reserved _) p h = (refl, refl)
