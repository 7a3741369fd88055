-- ===== src/Tests/Eligibility.antt =====
-- The theorems of Access at concrete persons.
use swimming_in_zurich.Base.{ℕ, true, false, Option, none, some, ◌≡◌, refl, ◌↔◌, inl, inr}
use swimming_in_zurich.Person.{Person, Gender, female}
use swimming_in_zurich.Access.{school_reserved, seniors_only, girls_only, eligibility}
use swimming_in_zurich.Access.Rules.{
  Welcomes, eligibility-iff-Welcomes, code_allows, code_rule, eligibility_code, eligibility-Refines,
  eligibility_unstated,
}

abbrev aged : Option Gender → ℕ → Person
aged gender age = record { gender = gender; age = some age }

too_young : (eligibility (aged none 59) (seniors_only 60)).allowed ≡ false
unfolding eligibility
too_young = refl

eligibility-iff-Welcomes_example :
    ((eligibility (aged none 60) (seniors_only 60)).allowed ≡ true)
    ↔ Welcomes (aged none 60) (seniors_only 60)
eligibility-iff-Welcomes_example = eligibility-iff-Welcomes (aged none 60) (seniors_only 60)

eligibility_code_example :
    ((eligibility (aged none 17) girls_only).allowed
      ≡ code_allows (eligibility (aged none 17) girls_only).code)
    × ((eligibility (aged none 17) girls_only).rule
        ≡ code_rule (eligibility (aged none 17) girls_only).code)
eligibility_code_example = eligibility_code (aged none 17) girls_only

senior_welcome : (eligibility (aged none 71) (seniors_only 60)).allowed ≡ true
unfolding eligibility
senior_welcome = refl

eligibility-Refines_example :
    eligibility (aged (some female) 71) (seniors_only 60)
    ≡ eligibility (aged none 71) (seniors_only 60)
eligibility-Refines_example =
    eligibility-Refines (aged none 71) (aged (some female) 71) (seniors_only 60)
      (inl refl, inr refl) senior_welcome

eligibility_unstated_example :
    (eligibility (aged none 60) school_reserved
      ≡ eligibility (record { gender = none; age = none }) school_reserved)
    × ((eligibility (aged none 60) school_reserved).allowed ≡ false)
unfolding eligibility
eligibility_unstated_example = eligibility_unstated school_reserved (aged none 60) refl
