-- ===== src/Person.antt =====
-- src/swimzh/domain/person.py: the person asking the question.
use swimming_in_zurich.Base.{ℕ, Option}

pub data Gender : Type 0 where
  female male diverse : Gender

pub record Person : Type 0 where
  pub gender : Option Gender
  pub age : Option ℕ
