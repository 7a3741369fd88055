-- ===== src/Errors/Chain.antt =====
-- Chains of results: the first error ends the chain.
use swimming_in_zurich.Base.{◌≡◌, subst}
use swimming_in_zurich.Errors.{Result, ok, err}

infixl 5 ◌>>=◌
abbrev pub ◌>>=◌ : {A B E : Type 0} → Result A E → (A → Result B E) → Result B E
ok a >>= f = f a
err e >>= f = err e

-- What holds of the value of a result that has one.
abbrev pub Holds : {A E : Type 0} → (A → Type 0) → Result A E → Type 0
Holds P (ok a) = P a
Holds P (err _) = Unit

-- What a step yields, brought to the end of a chain.
pub >>=-Holds :
    {A B E : Type 0} (Q : A → Type 0) (P : B → Type 0) (m : Result A E) (f : A → Result B E)
    → Holds Q m
    → ((a : A) → Q a → Holds P (f a))
    → Holds P (m >>= f)
>>=-Holds Q P (ok a) f h k = k a h
>>=-Holds Q P (err _) f h k = tt

pub Holds-of_ok :
    {A E : Type 0} (P : A → Type 0) (m : Result A E) (a : A) → m ≡ ok a → Holds P m → P a
Holds-of_ok P m a e h = subst (Holds P) e h
